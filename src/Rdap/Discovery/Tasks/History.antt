-- ===== src/Rdap/Discovery/Tasks/History.antt =====
-- src/rdap.rs: a history of bootstrap data, and what is named by it.
use mathlib.Core.List.{Memᴰ}
use rust_whois.Prelude.{◌≡◌, refl, List, [], ◌∷◌, Option, none, some, All}
use rust_whois.Text.{Str}
use rust_whois.Error.{ok, err}
use rust_whois.Whois.Servers.{Servers, Entries}
use rust_whois.Rdap.Discovery.{RdapBootstrap, resolve}
use rust_whois.Rdap.Discovery.Tasks.{
  Task, looking, missed, clearing, holding, inserting, answered, panicked, held,
}

-- Data of a history names the server.
abbrev pub IsNamed : List RdapBootstrap → Str → Str → Type 0
IsNamed ever tld server = (d : RdapBootstrap) × Memᴰ d ever × (resolve d tld ≡ some server)

-- Every entry of the cache is named.
abbrev pub Cached : List RdapBootstrap → Servers → Type 0
Cached ever servers = Entries (IsNamed ever) servers

-- What a task has in hand is of the history, its answer too, and it did not panic.
abbrev pub Sound : List RdapBootstrap → Task → Type 0
Sound ever (looking tld) = Unit
Sound ever (missed tld) = Unit
Sound ever (clearing tld d) = Memᴰ d ever
Sound ever (holding tld d) = Memᴰ d ever
Sound ever (inserting tld server) = IsNamed ever tld server
Sound ever (answered tld (ok server)) = IsNamed ever tld server
Sound ever (answered tld (err e)) = Unit
Sound ever panicked = ⊥

abbrev pub Holds : List RdapBootstrap → Option RdapBootstrap → Type 0
Holds ever none = Unit
Holds ever (some d) = Memᴰ d ever

module _ (ever : List RdapBootstrap) (e : RdapBootstrap) where
  IsNamed-∷ : (tld server : Str) → IsNamed ever tld server → IsNamed (e ∷ ever) tld server
  IsNamed-∷ tld server (d, m, named) = (d, Memᴰ.tail m, named)

  pub Cached-∷ : (servers : Servers) → Cached ever servers → Cached (e ∷ ever) servers
  Cached-∷ [] h = tt
  Cached-∷ ((tld, server) ∷ rest) (named, h) = (IsNamed-∷ tld server named, Cached-∷ rest h)

  Sound-∷ : (t : Task) → Sound ever t → Sound (e ∷ ever) t
  Sound-∷ (looking tld) h = tt
  Sound-∷ (missed tld) h = tt
  Sound-∷ (clearing tld d) h = Memᴰ.tail h
  Sound-∷ (holding tld d) h = Memᴰ.tail h
  Sound-∷ (inserting tld server) h = IsNamed-∷ tld server h
  Sound-∷ (answered tld (ok server)) h = IsNamed-∷ tld server h
  Sound-∷ (answered tld (err reason)) h = tt
  Sound-∷ panicked h = h

  All-Sound-∷ : (ts : List Task) → All (Sound ever) ts → All (Sound (e ∷ ever)) ts
  All-Sound-∷ [] h = tt
  All-Sound-∷ (t ∷ ts) (sound, h) = (Sound-∷ t sound, All-Sound-∷ ts h)

module _ (ever : List RdapBootstrap) (content : Option RdapBootstrap) where
  pub Cached-held : (servers : Servers) → Cached ever servers → Cached (held content ever) servers
  Cached-held servers = go content
    where
      go : (o : Option RdapBootstrap) → Cached ever servers → Cached (held o ever) servers
      go none h = h
      go (some d) h = Cached-∷ ever d servers h

  pub Sound-held : (t : Task) → Sound ever t → Sound (held content ever) t
  Sound-held t = go content
    where
      go : (o : Option RdapBootstrap) → Sound ever t → Sound (held o ever) t
      go none h = h
      go (some d) h = Sound-∷ ever d t h

  pub All-Sound-held : (ts : List Task) → All (Sound ever) ts → All (Sound (held content ever)) ts
  All-Sound-held [] h = tt
  All-Sound-held (t ∷ ts) (sound, h) = (Sound-held t sound, All-Sound-held ts h)

  pub Holds-held : Holds (held content ever) content
  Holds-held = go content
    where
      go : (o : Option RdapBootstrap) → Holds (held o ever) o
      go none = tt
      go (some d) = Memᴰ.head refl
