-- ===== src/Tests/Rdap.antt =====
-- The RDAP client, run on small inputs.
use rust_whois.Prelude.{
  ℕ, ◌≤◌, ◌≡◌, refl, [], ◌∷◌, ◌++◌, Option, none, some, ◌⊎◌, inl, inr, length, arith,
}
use rust_whois.Text.{Str, codes, len}
use rust_whois.Error.{Result, ok}
use rust_whois.Data.{found}
use rust_whois.Rdap.Domain.{RdapDomainResponse, RdapEvent, record_of}
use rust_whois.Rdap.Domain.{parse_rdap_response}
use rust_whois.Rdap.Domain.Events.{IsRead, record_of-IsRead}
use rust_whois.Rdap.Query.{HttpResponse, query_rdap_resource, attempt, read_response, is_transient}
use rust_whois.Rdap.Query.Attempts
use rust_whois.Rdap.Query.Attempts.{Accounts, query_rdap_resource-Accounts, query_rdap_resource-len}
use rust_whois.Rdap.Bootstrap.{Readings, get_or_fetch_bootstrap, initial, accesses, returns}
use rust_whois.Rdap.Bootstrap.Spacing
use rust_whois.Rdap.Bootstrap.Recovery.{get_or_fetch_bootstrap-due}
use rust_whois.Rdap.Discovery.{RdapBootstrap}
use rust_whois.Rdap.Discovery.Cached.{IsCurrent}
use rust_whois.Rdap.Lookup.{lookup}
use rust_whois.Rdap.Lookup.Answered.{Reports, lookup-LookedUp}
use rust_whois.Tests.{no_dates, at_once}
use rust_whois.Tests.Looping.{retry_loop}

abbrev event : RdapEvent
event = record {
  event_action = some (codes "registration");
  event_date = some (codes "2020-01-01");
}

abbrev registration : RdapDomainResponse
registration = record {
  name_servers = some (record { ldh_name = some (codes "ns.example") } ∷ []);
  events = some (event ∷ []);
  entities = none;
  status = some (codes "active" ∷ []);
}

record_of-IsRead_example : IsRead registration (record_of registration)
record_of-IsRead_example = record_of-IsRead registration

abbrev parse : Str → Str ⊎ Str
parse s = inr s

abbrev push : Str → Str → Str → Option Str
push url a b = some (url ++ codes "/" ++ a ++ codes "/" ++ b)

abbrev absent : Str ⊎ HttpResponse
absent = inr (record { status = 404; content_length = none; text = inr [] })

abbrev present : Str ⊎ HttpResponse
present = inr (record { status = 200; content_length = some 2; text = inr (codes "{}") })

-- One failure, and then a 404.
abbrev flaky : Attempts.Log → Str → Str ⊎ HttpResponse
flaky [] url = inl (codes "reset")
flaky (outcome ∷ log) url = absent

abbrev steady : Attempts.Log → Str → Str ⊎ HttpResponse
steady log url = present

abbrev no_text : ℕ → Str
no_text status = []

query_rdap_resource-Accounts_example :
    let out =
      query_rdap_resource
        (Attempts.logged parse push flaky no_text)
        100
        (codes "domain")
        retry_loop
        (codes "https://rdap.example")
        (codes "a.example")
        [] in
    Accounts parse push flaky no_text 100 (codes "domain") out × (length out.1 ≤ 4)
query_rdap_resource-Accounts_example =
    query_rdap_resource-Accounts parse push flaky no_text 100 (codes "domain") retry_loop
      (codes "https://rdap.example") (codes "a.example")

found_one :
    (query_rdap_resource
      (Attempts.logged parse push steady no_text)
      100
      (codes "domain")
      retry_loop
      (codes "https://rdap.example")
      (codes "a.example")
      []).0
    ≡ ok (codes "{}", found)
unfolding query_rdap_resource attempt read_response is_transient len
found_one = refl

abbrev bootstrap : RdapBootstrap
bootstrap = record { tlds = codes "example" ∷ []; servers = codes "https://rdap.example" ∷ [] } ∷ []

abbrev fetch_one : Attempts.Log → Result RdapBootstrap × Attempts.Log
fetch_one log = (ok bootstrap, log)

abbrev at_time : ℕ → Readings
at_time t = record { fresh_at = t; recent_at = t; attempt_at = t; arrival_at = t }

abbrev suffix : Str → Option (Option Str)
suffix s = some (some (codes "example"))

abbrev unreadable : Str → Str ⊎ RdapDomainResponse
unreadable s = inl (codes "expected value")

lookup-LookedUp_example :
    let ((answer, s'), w') =
      lookup
        (Attempts.logged parse push steady no_text)
        retry_loop
        100
        no_dates
        at_once
        suffix
        unreadable
        fetch_one
        (at_time 5)
        (codes "a.example")
        initial
        [] in
    Reports suffix
      (parse_rdap_response unreadable no_dates at_once)
      (codes "a.example")
      s'.bootstrap.content
      answer
    × IsCurrent s'
lookup-LookedUp_example =
    lookup-LookedUp (Attempts.logged parse push steady no_text) retry_loop 100 no_dates at_once
      suffix unreadable fetch_one (at_time 5) (codes "a.example") initial [] tt

abbrev five : Readings → Spacing.Log → Result ℕ
five at log = ok 5

get_or_fetch_bootstrap-due_example :
    let ((answer, s'), log') =
      get_or_fetch_bootstrap (Spacing.logged five (at_time 5)) (at_time 5) (initial {D = ℕ}) [] in
    (answer ≡ returns (ok 5))
    × (log' ≡ 5 ∷ [])
    × (accesses (Spacing.logged five) (at_time 9 ∷ []) s' log' ≡ (s', log'))
get_or_fetch_bootstrap-due_example =
    get_or_fetch_bootstrap-due five (at_time 5) (at_time 9 ∷ []) initial 5 [] (tt, tt) refl
      (omega arith, tt)
