-- ===== src/Whois/Lookup.antt =====
-- src/whois.rs: `lookup` of a domain.
pub mod Merge
use rust_whois.Prelude.{
  ℕ, Bool, true, false, List, [], ◌∷◌, ◌++◌, Option, none, some, if◌then◌else◌,
}
use rust_whois.Text.{Str, CaseMap, codes, str_eq}
use rust_whois.Error.{Result, ok, err}
use rust_whois.Data.{
  LookupStatus, found, not_found, rate_limited, ParsedWhoisData, LookupResult, fill_missing_from,
}
use rust_whois.Dates.{Chrono, Clock}
use rust_whois.Parser.Classify.{classify_response}
use rust_whois.Parser.Domain.{parse_whois_data}
use rust_whois.Parser.Report.{parse_whois_data_with_analysis}
use rust_whois.Tld.{Psl, extract_tld}
use rust_whois.Whois.Follow.{follow_referrals}
use rust_whois.Whois.Registry.{Network, State, ask_registry}

abbrev pub is_rate_limited : LookupStatus → Bool
is_rate_limited rate_limited = true
is_rate_limited _ = false

module _ (m : CaseMap) (c : Chrono) where
  -- `WhoisResult` of a response, before anything else is taken into account.
  unfoldable pub read : Clock c → (server text : Str) → LookupResult
  unfolding parse_whois_data_with_analysis classify_response
  read now server text =
      let (parsed, analysis) = parse_whois_data_with_analysis m c now text in
      record {
        server = server;
        raw_data = text;
        parsed_data = some parsed;
        parsing_analysis = analysis;
        status = classify_response m text parsed;
      }

  abbrev with_note : LookupResult → Str → LookupResult
  with_note r note = record r { parsing_analysis = r.parsing_analysis ++ (note ∷ []) }

  -- `parsed_data.fill_missing_from(&registry_parsed)`
  abbrev backfill : Option ParsedWhoisData → ParsedWhoisData → Option ParsedWhoisData
  backfill none fallback = none
  backfill (some parsed) fallback = some (fill_missing_from parsed fallback)

  -- From the answer of the last server to the result: a throttled referral gives way to the
  -- registry's response, and another one is filled up from it. `now` and `later` are the readings
  -- of the clock for the two parses.
  unfoldable pub merge :
      (now later : Clock c) → (whois_server raw_data server text : Str) → LookupResult
  unfolding read parse_whois_data
  merge now later whois_server raw_data server text =
      let final = read now server text in
      let registry = read later whois_server raw_data in
      if str_eq server whois_server
      then final
      else if is_rate_limited final.status
      then if is_rate_limited registry.status
        then final
        else with_note registry (
            codes "Referral server " ++ server ++ codes " was rate-limited; kept registry response")
      else with_note
          (record final {
            parsed_data = backfill final.parsed_data (parse_whois_data m c later raw_data);
          })
          (codes "Backfilled missing fields from registry response (" ++ whois_server ++ codes ")")

  module _ {W : Type 0} (n : Network W) (suffix : Psl) (max_referrals : ℕ) where
    abbrev enriched :
        (now later : Clock c) → Str → Result (Str × Str) → State W → Result LookupResult × State W
    enriched now later domain (err e) s = (err e, s)
    enriched now later domain (ok (whois_server, raw_data)) s =
        let ((server, text), w) =
          follow_referrals n.referral_whois_query m domain max_referrals whois_server raw_data
            s.world in
        (ok (merge now later whois_server raw_data server text), record s { world = w })

    abbrev for_tld :
        (now later : Clock c) → Str → Result Str → State W → Result LookupResult × State W
    for_tld now later domain (err e) s = (err e, s)
    for_tld now later domain (ok tld) s =
        let (answer, s') = ask_registry n m tld domain s in enriched now later domain answer s'

    unfoldable pub lookup :
        (now later : Clock c) → (domain : Str) → State W → Result LookupResult × State W
    unfolding extract_tld ask_registry follow_referrals merge
    lookup now later domain s = for_tld now later domain (extract_tld suffix domain) s
