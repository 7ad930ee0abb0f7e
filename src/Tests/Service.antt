-- ===== src/Tests/Service.antt =====
-- The client, the followed referrals and the bootstrap data, run on small inputs.
use rust_whois.Prelude.{ℕ, suc, false, List, [], ◌∷◌, Option, none, some, if◌then◌else◌, arith}
use rust_whois.Text.{Str, codes, ascii_only, trim, str_eq}
use rust_whois.Error.{Result, ok, err, timeout}
use rust_whois.Data.{WhoisResponse}
use rust_whois.Cache.{CacheService, Tiers}
use rust_whois.Client.Query.{new_query}
use rust_whois.Client.Query.Accepted.{Detected, new_query-Detected}
use rust_whois.Client.Lookup.{Services, lookup_internal}
use rust_whois.Client.Lookup.Tiering.{Answers, lookup_internal-Answers}
use rust_whois.Whois.Follow.{follow_referrals}
use rust_whois.Whois.Follow.Log
use rust_whois.Whois.Follow.Log.{Bounded, follow_referrals-Bounded}
use rust_whois.Rdap.Bootstrap.{Readings, initial, accesses}
use rust_whois.Rdap.Bootstrap.Spacing
use rust_whois.Rdap.Bootstrap.Spacing.{InOrder, Spaced, accesses-Spaced}
use rust_whois.Tests.{one_slot, result}

abbrev any_name : Str → Option Str
any_name s = none

new_query-Detected_example :
    Detected ascii_only any_name
      (trim (codes " WWW.Example.com. "))
      (new_query ascii_only any_name (codes " WWW.Example.com. "))
new_query-Detected_example = new_query-Detected ascii_only any_name (codes " WWW.Example.com. ")

-- Services that count the queries: RDAP never answers, WHOIS always does.
abbrev counting : Services ℕ
counting = record {
  rdap_lookup = λ query w. (err timeout, suc w);
  rdap_lookup_ip = λ query w. (err timeout, suc w);
  whois_lookup = λ query w. (ok result, suc w);
  whois_lookup_ip = λ query w. (ok result, suc w);
}

abbrev service : CacheService (Option WhoisResponse) Unit
service = record { cache = one_slot; backend = none; positive_ttl = 3600; negative_ttl = 300 }

abbrev empty : Tiers (Option WhoisResponse) Unit ℕ
empty = record { local = none; shared = tt; net = 0 }

lookup_internal-Answers_example :
    Answers counting
      (codes "a.example")
      false
      7
      9
      0
      (lookup_internal counting (some service) (codes "a.example") false false 7 9 false empty)
lookup_internal-Answers_example =
    lookup_internal-Answers counting (codes "a.example") false 7 9 (some service) false false empty

abbrev referring : Log.Log → Str → Str → Result Str
referring log server query =
    if str_eq server (codes "whois.b.example")
    then ok (codes "ReferralServer: whois://whois.c.example:43/")
    else ok (codes "Whois Server: whois.b.example")

follow_referrals-Bounded_example :
    Bounded 3 (codes "whois.a.example") (codes "refer: whois.b.example") (
      follow_referrals
        (Log.logged referring)
        ascii_only
        (codes "x.example")
        3
        (codes "whois.a.example")
        (codes "refer: whois.b.example")
        [])
follow_referrals-Bounded_example =
    follow_referrals-Bounded referring ascii_only (codes "x.example") (codes "whois.a.example")
      (codes "refer: whois.b.example") 3

abbrev at_time : ℕ → Readings
at_time t = record { fresh_at = t; recent_at = t; attempt_at = t; arrival_at = suc t }

abbrev failing : Readings → Spacing.Log → Result ℕ
failing at log = err timeout

abbrev times : List Readings
times = at_time 1000000000000 ∷ at_time 1200000000000 ∷ at_time 1300000000000 ∷ []

accesses-Spaced_example : Spaced (accesses (Spacing.logged failing) times initial []).1
accesses-Spaced_example =
    accesses-Spaced failing times (omega arith, (omega arith, (omega arith, tt)))
