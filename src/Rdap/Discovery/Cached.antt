-- ===== src/Rdap/Discovery/Cached.antt =====
-- src/rdap.rs: the server cache against the bootstrap data that is held.
use rust_whois.Prelude.{
  ◌≡◌, refl, sym, ◌∙◌, ap, subst, [], ◌∷◌, Option, none, some, if◌then◌else◌, if_rule, is_some,
}
use rust_whois.Text.{Str}
use rust_whois.Error.{Result, ok, err}
use rust_whois.Whois.Servers.{
  Servers, server_of, insert, Entries, remove-Entries, server_of-Entries,
}
use rust_whois.Rdap.Bootstrap.{
  Readings, Service, BootstrapAction, use_cached, fetch, serve_stale, unavailable, Outcome, returns,
  panics, acted, fetched, get_or_fetch_bootstrap,
}
use rust_whois.Rdap.Bootstrap.Serving.{Serves, get_or_fetch_bootstrap-Serves}
use rust_whois.Rdap.Discovery.{
  RdapBootstrap, resolve, discovered, remember, discover_rdap_server_bootstrap,
  cached_or_discovered, find_rdap_server,
}

-- The server that the data held names for a top-level domain.
abbrev pub resolved : Option RdapBootstrap → Str → Option Str
resolved none tld = none
resolved (some bootstrap) tld = resolve bootstrap tld

abbrev Named : Option RdapBootstrap → Str → Str → Type 0
Named content tld server = resolved content tld ≡ some server

-- Every entry of the cache is what the data held names.
abbrev pub IsCurrent : Service RdapBootstrap → Type 0
IsCurrent s = Entries (Named s.bootstrap.content) s.tld_servers

-- The answer is what the data that is then held names.
abbrev pub Names : Str → Outcome (Result Str) × Service RdapBootstrap → Type 0
Names tld (panics, s) = ⊥
Names tld (returns (ok server), s) = resolved s.bootstrap.content tld ≡ some server
Names tld (returns (err e), s) = resolved s.bootstrap.content tld ≡ none

servers_of_no_data : (servers : Servers) → Entries (Named none) servers → servers ≡ []
servers_of_no_data [] h = refl
servers_of_no_data ((tld, server) ∷ rest) (e, h) = cc

arrived-IsCurrent :
    (at : Readings) (s : Service RdapBootstrap) (d : RdapBootstrap)
    → IsCurrent s
    → Entries (Named (some d)) (if is_some s.bootstrap.content then [] else s.tld_servers)
arrived-IsCurrent at s d current = go s.bootstrap.content current
  where
    go :
        (content : Option RdapBootstrap)
        → Entries (Named content) s.tld_servers
        → Entries (Named (some d)) (if is_some content then [] else s.tld_servers)
    go (some old) held = tt
    go none held = subst (Entries (Named (some d))) (sym (servers_of_no_data s.tld_servers held)) tt

fetched-IsCurrent :
    (at : Readings) (s : Service RdapBootstrap) (answer : Result RdapBootstrap)
    → IsCurrent s
    → IsCurrent (fetched at s answer).1
fetched-IsCurrent at s (ok d) current = arrived-IsCurrent at s d current
fetched-IsCurrent at s (err e) current = current

module _ {W : Type 0} (fetch_data : W → Result RdapBootstrap × W) (at : Readings) where
  acted-IsCurrent :
      (s : Service RdapBootstrap) (w : W) (action : BootstrapAction)
      → IsCurrent s
      → IsCurrent (acted fetch_data at s w action).0.1
  acted-IsCurrent s w use_cached current = current
  acted-IsCurrent s w serve_stale current = current
  acted-IsCurrent s w unavailable current = current
  acted-IsCurrent s w fetch current = fetched-IsCurrent at s (fetch_data w).0 current

  get_or_fetch_bootstrap-IsCurrent :
      (s : Service RdapBootstrap) (w : W)
      → IsCurrent s
      → IsCurrent (get_or_fetch_bootstrap fetch_data at s w).0.1
  unfolding get_or_fetch_bootstrap
  get_or_fetch_bootstrap-IsCurrent s w current = acted-IsCurrent s w _ current

  -- An answer that names the server of the data then held, and a cache that only has such servers.
  abbrev pub Answered : Str → Outcome (Result Str) × Service RdapBootstrap → Type 0
  Answered tld (answer, s) = Names tld (answer, s) × IsCurrent s

  remember-Answered :
      (tld : Str) (before : Option RdapBootstrap) (answer : Outcome (Result RdapBootstrap))
      (s : Service RdapBootstrap)
      → Serves before s.bootstrap.content answer
      → IsCurrent s
      → Answered tld (remember tld (discovered tld answer) s)
  unfolding insert
  remember-Answered tld before panics s serves current = elim serves [ ]
  remember-Answered tld before (returns (err e)) s (before_none, held_none) current =
      (ap (λ content. resolved content tld) held_none, current)
  remember-Answered tld before (returns (ok d)) s held current = named (resolve d tld) refl
    where
      named :
          (server : Option Str)
          → resolve d tld ≡ server
          → Answered tld (remember tld (returns server) s)
      named none e = (ap (λ content. resolved content tld) held ∙ e, current)
      named (some server) e =
          let names = ap (λ content. resolved content tld) held ∙ e in
          (
            names,
            if_rule (Entries (Named s.bootstrap.content)) (is_some (server_of tld s.tld_servers))
                s.tld_servers _ (λ _. current)
                (λ _.
                  (names, remove-Entries (Named s.bootstrap.content) tld s.tld_servers current)),
          )

  -- Where every cached server is the one that the data held names: the answer for a top-level
  -- domain is the server that the data then held names for it, an error stands for no such server,
  -- nothing panics, and every cached server is again the one that the data then held names.
  pub find_rdap_server-Answered :
      (tld : Str) (s : Service RdapBootstrap) (w : W)
      → IsCurrent s
      → Answered tld (find_rdap_server fetch_data at tld s w).0
  unfolding find_rdap_server discover_rdap_server_bootstrap
  find_rdap_server-Answered tld s w current = go (server_of tld s.tld_servers) refl
    where
      go :
          (server : Option Str)
          → server_of tld s.tld_servers ≡ server
          → Answered tld (cached_or_discovered fetch_data at tld server s w).0
      go (some server) e = (
        server_of-Entries (Named s.bootstrap.content) tld server s.tld_servers current e,
        current,
      )
      go none e =
          remember-Answered tld s.bootstrap.content (get_or_fetch_bootstrap fetch_data at s w).0.0
            (get_or_fetch_bootstrap fetch_data at s w).0.1
            (get_or_fetch_bootstrap-Serves fetch_data at s w)
            (get_or_fetch_bootstrap-IsCurrent s w current)
