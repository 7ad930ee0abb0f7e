-- ===== src/Tests/Registry.antt =====
-- The server cache, run on a server that has moved.
use rust_whois.Prelude.{ℕ, suc, true, false, [], ◌∷◌}
use rust_whois.Text.{codes, ascii_only, str_eq}
use rust_whois.Error.{ok, err, timeout}
use rust_whois.Whois.Registry.{Network, State, ask_registry}
use rust_whois.Whois.Registry.Heal.{Remembers, first, ask_registry-Remembers}

-- A network in which the cached server is dead and IANA refers to another one.
abbrev moved : Network ℕ
moved = record {
  raw_whois_query = λ server query w. (
    elim (str_eq server (codes "whois.old.example")) [ true ↦ err timeout | false ↦ ok query ],
    suc w,
  );
  discovery_whois_query = λ server query w. (ok (codes "whois: whois.new.example"), suc w);
  referral_whois_query = λ server query w. (err timeout, suc w);
  test_whois_server = λ server w. (true, suc w);
}

abbrev before : State ℕ
before = record { tld_servers = (codes "example", codes "whois.old.example") ∷ []; world = 0 }

ask_registry-Remembers_example :
    Remembers first
      (codes "example")
      (ask_registry moved ascii_only (codes "example") (codes "a.example") before)
ask_registry-Remembers_example =
    ask_registry-Remembers moved ascii_only (codes "example") (codes "a.example") before
