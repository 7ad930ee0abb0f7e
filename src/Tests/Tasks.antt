-- ===== src/Tests/Tasks.antt =====
-- Lookups of RDAP servers that run at once, on small inputs.
use rust_whois.Prelude.{ℕ, ◌≡◌, refl, List, [], ◌∷◌, none, some, All, arith}
use rust_whois.Text.{Str, codes}
use rust_whois.Error.{ok}
use rust_whois.Whois.Servers.{server_of, insert}
use rust_whois.Rdap.Bootstrap.{decide}
use rust_whois.Rdap.Discovery.{RdapBootstrap, resolve}
use rust_whois.Rdap.Discovery.Tasks.{
  Input, Move, starts, steps, cancels, run, move, advance_at, drop_at, advance, new_system,
}
use rust_whois.Rdap.Discovery.Tasks.History.{Cached, Sound}
use rust_whois.Rdap.Discovery.Tasks.Named.{run-Sound}
use rust_whois.Rdap.Discovery.Tasks.Stale.{with_data, overtaken, run-overtaken}

abbrev naming : Str → RdapBootstrap
naming server = record { tlds = codes "example" ∷ []; servers = server ∷ [] } ∷ []

abbrev first : Str
first = codes "https://a.example"

abbrev second : Str
second = codes "https://b.example"

abbrev at_time : ℕ → RdapBootstrap → Input
at_time t d = record {
  at = record { fresh_at = t; recent_at = t; attempt_at = t; arrival_at = t };
  answer = ok d;
}

-- Two lookups, of which the second is dropped before it takes the mutex.
abbrev interleaved : List Move
interleaved =
    starts (codes "example")
    ∷ starts (codes "example")
    ∷ steps 0 (at_time 0 (naming first))
    ∷ steps 1 (at_time 0 (naming first))
    ∷ steps 0 (at_time 1 (naming first))
    ∷ cancels 1
    ∷ steps 0 (at_time 2 (naming first))
    ∷ steps 0 (at_time 3 (naming first))
    ∷ []

run-Sound_example :
    let m = run interleaved new_system in
    Cached m.ever m.service.tld_servers × All (Sound m.ever) m.tasks
run-Sound_example = run-Sound interleaved

remembered :
    server_of (codes "example") (run interleaved new_system).service.tld_servers ≡ some first
unfolding run move advance_at drop_at advance decide resolve server_of insert
remembered = refl

-- A day later.
abbrev late : Input
late = at_time 100000000000000 (naming second)

run-overtaken_example :
    let s =
      (run
        (overtaken (codes "example") (codes "net") (at_time 5 (naming first)) late)
        (with_data (naming first) 1 none)).service in
    (s.bootstrap.content ≡ some (naming second))
    × (server_of (codes "example") s.tld_servers ≡ some first)
unfolding resolve
run-overtaken_example =
    run-overtaken (naming first) (naming second) 1 none (codes "example") (codes "net") first
      (at_time 5 (naming first)) late refl (omega arith) (omega arith, tt) refl
