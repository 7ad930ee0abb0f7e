-- ===== src/Rdap/Discovery/Tasks/Stale.antt =====
-- src/rdap.rs: a lookup that is overtaken by a refresh of the bootstrap data.
use rust_whois.Prelude.{◌≡◌, refl, List, [], ◌∷◌, Option, some, ℕ}
use rust_whois.Text.{Str}
use rust_whois.Error.{ok}
use rust_whois.Whois.Servers.{server_of, server_of-insert}
use rust_whois.Rdap.Bootstrap.Recovery.{IsDue, WithinDay, decide-due, decide-fresh}
use rust_whois.Rdap.Discovery.{RdapBootstrap, resolve}
use rust_whois.Rdap.Discovery.Tasks.{
  Input, System, Move, starts, steps, advance, advance_at, move, run,
}

-- A service with data, and an empty cache.
abbrev pub with_data : RdapBootstrap → (fetched_at : ℕ) → (last_attempt : Option ℕ) → System
with_data d fetched_at last_attempt = record {
  service = record {
    bootstrap = record {
      content = some d;
      fetched_at = some fetched_at;
      last_attempt = last_attempt;
    };
    tld_servers = [];
  };
  tasks = [];
  ever = d ∷ [];
}

-- The first lookup takes the data and finds its server; then the second one refreshes the data and
-- clears the cache; then the first one writes to the cache.
abbrev pub overtaken : (tld other : Str) (early late : Input) → List Move
overtaken tld other early late =
    starts tld
    ∷ starts other
    ∷ steps 0 early
    ∷ steps 0 early
    ∷ steps 0 early
    ∷ steps 1 late
    ∷ steps 1 late
    ∷ steps 1 late
    ∷ steps 0 late
    ∷ []

-- Whatever new data a refresh brings, a lookup that found its server in the old data before the
-- refresh and writes to the cache after it leaves the server of the old data in the cache, with the
-- new data held.
pub run-overtaken :
    (old new : RdapBootstrap) (fetched_at : ℕ) (last_attempt : Option ℕ) (tld other server : Str)
    (early late : Input)
    → resolve old tld ≡ some server
    → WithinDay fetched_at early.at
    → IsDue late.at (with_data old fetched_at last_attempt).service.bootstrap
    → late.answer ≡ ok new
    → let s =
        (run (overtaken tld other early late) (with_data old fetched_at last_attempt)).service in
      (s.bootstrap.content ≡ some new) × (server_of tld s.tld_servers ≡ some server)
unfolding run move advance_at advance
run-overtaken old new fetched_at last_attempt tld other server early late names within due
      answered =
    rw
      (
        decide-fresh (with_data old fetched_at last_attempt).service.bootstrap old fetched_at
            early.at refl refl within,
        names,
        decide-due (with_data old fetched_at last_attempt).service.bootstrap late.at due,
        answered,
      )
      (refl, server_of-insert tld server [])
