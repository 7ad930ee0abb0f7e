-- ===== src/Whois/Registry/Heal.antt =====
-- src/whois.rs: the server cache after a lookup.
use rust_whois.Prelude.{◌≡◌, refl, Option, none, some, if_rule, arith}
use rust_whois.Text.{Str, CaseMap, str_eq}
use rust_whois.Error.{WhoisError, Result, ok, err}
use rust_whois.Whois.Servers.{Servers, server_of, remove, server_of-remove, server_of-insert}
use rust_whois.Whois.Registry.{
  Network, State, discover_whois_server_dynamic, remember, cached_or_found, find_whois_server,
  retried, with_rediscovered, rediscover_and_retry, ask_or_heal, ask_found, ask_registry,
}

-- The cache names the server that answered, and no server at all after an error.
abbrev pub Remembers : {W A : Type 0} → (A → Str) → Str → Result A × State W → Type 0
Remembers server tld (ok a, s) = server_of tld s.tld_servers ≡ some (server a)
Remembers server tld (err e, s) = server_of tld s.tld_servers ≡ none

abbrev pub itself : Str → Str
itself server = server

abbrev pub first : Str × Str → Str
first (server, text) = server

module _ {W : Type 0} (n : Network W) (m : CaseMap) (tld : Str) where
  remember-Remembers :
      (found : Option Str) (servers : Servers) (w : W)
      → server_of tld servers ≡ none
      → Remembers itself tld (remember n m tld found servers w)
  remember-Remembers none servers w absent = absent
  remember-Remembers (some server) servers w absent =
      let stored = server_of-insert tld server servers in ground arith

  find-Remembers : (s : State W) → Remembers itself tld (find_whois_server n m tld s)
  unfolding find_whois_server
  find-Remembers s = go (server_of tld s.tld_servers) refl
    where
      go :
          (o : Option Str)
          → server_of tld s.tld_servers ≡ o
          → Remembers itself tld (cached_or_found n m tld o s)
      go (some server) e = e
      go none e =
          remember-Remembers (discover_whois_server_dynamic n m tld s.world).0 s.tld_servers _ e

  retried-Remembers :
      (server : Str) (answer : Result Str) (servers : Servers) (w : W)
      → server_of tld servers ≡ none
      → Remembers first tld (retried n m tld server answer servers w)
  retried-Remembers server (ok text) servers w absent = server_of-insert tld server servers
  retried-Remembers server (err e) servers w absent = absent

  with_rediscovered-Remembers :
      (failed domain : Str) (e : WhoisError) (found : Option Str) (servers : Servers) (w : W)
      → server_of tld servers ≡ none
      → Remembers first tld (with_rediscovered n m tld failed domain e found servers w)
  with_rediscovered-Remembers failed domain e none servers w absent = absent
  with_rediscovered-Remembers failed domain e (some server) servers w absent =
      let (answer, w') = n.raw_whois_query server domain w in
      if_rule (Remembers first tld) (str_eq server failed) _ _ (λ _. absent)
        (λ _. retried-Remembers server answer servers w' absent)

  ask_or_heal-Remembers :
      (server domain : Str) (answer : Result Str) (s : State W)
      → server_of tld s.tld_servers ≡ some server
      → Remembers first tld (ask_or_heal n m tld server domain answer s)
  unfolding rediscover_and_retry
  ask_or_heal-Remembers server domain (ok text) s known = known
  ask_or_heal-Remembers server domain (err e) s known =
      let (found, w) = discover_whois_server_dynamic n m tld s.world in
      with_rediscovered-Remembers server domain e found (remove tld s.tld_servers) w
        (server_of-remove tld s.tld_servers)

  ask_found-Remembers :
      (domain : Str) (found : Result Str) (s : State W)
      → Remembers itself tld (found, s)
      → Remembers first tld (ask_found n m tld domain found s)
  ask_found-Remembers domain (err e) s absent = absent
  ask_found-Remembers domain (ok server) s known =
      let (answer, w) = n.raw_whois_query server domain s.world in
      ask_or_heal-Remembers server domain answer (record s { world = w }) known

  -- After the registry has been asked, the cache names for the top-level domain the very server
  -- that answered; and if nothing answered, the cache names none, so that the next lookup looks
  -- for a server again.
  pub ask_registry-Remembers :
      (domain : Str) (s : State W) → Remembers first tld (ask_registry n m tld domain s)
  unfolding ask_registry
  ask_registry-Remembers domain s =
      let (found, s') = find_whois_server n m tld s in
      ask_found-Remembers domain found s' (find-Remembers s)
