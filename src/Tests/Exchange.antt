-- ===== src/Tests/Exchange.antt =====
-- One exchange with a server, and the means of a client that nothing answers, on small inputs.
use rust_whois.Prelude.{
  ℕ, suc, ◌≤◌, ◌≡◌, refl, true, false, List, [], ◌∷◌, Option, none, some, is_some, length, inl, inr,
  arith,
}
use rust_whois.Text.{Str, codes, ascii_only}
use rust_whois.Error.{ok, err, timeout}
use rust_whois.Whois.Registry.{Network}
use rust_whois.Whois.Read.{Event, bytes, read_whois_response, read_loop}
use rust_whois.Whois.Read.Limits.{
  received, read_whois_response-received, read_whois_response-Overdue,
}
use rust_whois.Config.{Config, default_config}
use rust_whois.Rdap.Bootstrap.{initial}
use rust_whois.Client.Build.{Means, Node}
use rust_whois.Tests.Looping.{retry_loop}
use rust_whois.Tests.{no_dates, at_once}

abbrev silent : Network ℕ
silent = record {
  raw_whois_query = λ server query w. (err timeout, suc w);
  discovery_whois_query = λ server query w. (err timeout, suc w);
  referral_whois_query = λ server query w. (err timeout, suc w);
  test_whois_server = λ server w. (false, suc w);
}

-- Bytes read as characters.
abbrev latin : List ℕ → Option Str
latin s = some s

abbrev arriving : List Event
arriving = (0, bytes (codes "ab")) ∷ (5, bytes (codes "c")) ∷ (9, bytes []) ∷ []

arrived : read_whois_response latin 15 3 arriving ≡ some (ok (codes "abc"))
unfolding read_whois_response read_loop
arrived = refl

read_whois_response-received_example :
    (latin (received arriving) ≡ some (codes "abc")) × (length (received arriving) ≤ 3)
read_whois_response-received_example =
    read_whois_response-received latin 15 3 arriving (codes "abc") arrived

abbrev dripping : List Event
dripping = (0, bytes (codes "a")) ∷ (30000000001, bytes (codes "b")) ∷ []

read_whois_response-Overdue_example : is_some (read_whois_response latin 15 1000 dripping) ≡ true
read_whois_response-Overdue_example =
    read_whois_response-Overdue latin 15 1000 dripping (inr (inl (omega arith)))

-- Means whose world counts the queries, none of which is answered.
abbrev pub unanswered : Means ℕ
unanswered = record {
  case_map = ascii_only;
  chrono = no_dates;
  psl = λ s. none;
  http = record {
    Url = Str;
    parse = λ s. inr s;
    push = λ url a b. some url;
    send = λ url w. (inl (codes "down"), suc w);
    show_status = λ n. [];
  };
  retry = retry_loop;
  whois_network = silent;
  domain_json = λ s. inl (codes "no JSON");
  network_json = λ s. inl (codes "no JSON");
  fetch_bootstrap = λ w. (err timeout, suc w);
  readings = λ w. record { fresh_at = w; recent_at = w; attempt_at = w; arrival_at = w };
  now = λ w. at_once;
  later = λ w. at_once;
}

abbrev pub small_machine : Config
small_machine = default_config 3000 2147483648 2147483 2 false

abbrev pub new_node : Node ℕ
new_node = record { rdap = initial; rdap_current = tt; whois_servers = []; world = 0 }
