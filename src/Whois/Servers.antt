-- ===== src/Whois/Servers.antt =====
-- src/whois.rs: `tld_servers`, a hash map as an association list.
use mathlib.Core.Option.{some_inj}
use rust_whois.Prelude.{
  ◌≡◌, refl, subst, List, [], ◌∷◌, Option, none, some, if◌then◌else◌, if_rule, Bool-cases, inl, inr,
  arith,
}
use rust_whois.Text.{Str, str_eq, str_eq_iff}

abbrev pub Servers : Type 0
Servers = List (Str × Str)

-- `get`
unfoldable pub server_of : Str → Servers → Option Str
server_of tld [] = none
server_of tld ((key, server) ∷ rest) =
    let later = server_of tld rest in if str_eq key tld then some server else later

-- `remove`
unfoldable pub remove : Str → Servers → Servers
remove tld [] = []
remove tld ((key, server) ∷ rest) =
    let kept = remove tld rest in if str_eq key tld then kept else (key, server) ∷ kept

-- `insert`
unfoldable pub insert : Str → Str → Servers → Servers
unfolding remove
insert tld server servers = (tld, server) ∷ remove tld servers

pub server_of-remove : (tld : Str) (servers : Servers) → server_of tld (remove tld servers) ≡ none
unfolding server_of remove
server_of-remove tld [] = refl
server_of-remove tld ((key, server) ∷ rest) = let ih = server_of-remove tld rest in ground arith

pub server_of-insert :
    (tld server : Str) (servers : Servers) → server_of tld (insert tld server servers) ≡ some server
unfolding server_of insert
server_of-insert tld server servers = let same = (str_eq_iff tld tld).1 refl in ground arith

-- Every entry, as its key and its server, has a property.
abbrev pub Entries : (Str → Str → Type 0) → Servers → Type 0
Entries P [] = Unit
Entries P ((key, server) ∷ rest) = P key server × Entries P rest

module _ (P : Str → Str → Type 0) where
  pub remove-Entries :
      (tld : Str) (servers : Servers) → Entries P servers → Entries P (remove tld servers)
  unfolding remove
  remove-Entries tld [] h = tt
  remove-Entries tld ((key, server) ∷ rest) (e, h) =
      let kept = remove-Entries tld rest h in
      if_rule (Entries P) (str_eq key tld) (remove tld rest) _ (λ _. kept) (λ _. (e, kept))

  pub insert-Entries :
      (tld server : Str) (servers : Servers)
      → P tld server
      → Entries P servers
      → Entries P (insert tld server servers)
  unfolding insert
  insert-Entries tld server servers e h = (e, remove-Entries tld servers h)

  pub server_of-Entries :
      (tld server : Str) (servers : Servers)
      → Entries P servers
      → server_of tld servers ≡ some server
      → P tld server
  unfolding server_of
  server_of-Entries tld server [] h e = cc
  server_of-Entries tld server ((key, value) ∷ rest) (here, h) e =
      elim (Bool-cases (str_eq key tld)) [
        | inl same ↦
            subst (λ k. P k server) ((str_eq_iff key tld).0 same)
              (subst (P key) (some_inj.0 (rw same at e)) here)
        | inr other ↦ server_of-Entries tld server rest h (rw other at e)
      ]
