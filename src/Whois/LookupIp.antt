-- ===== src/Whois/LookupIp.antt =====
-- src/whois.rs: `lookup_ip`.
pub mod Enrich
use rust_whois.Prelude.{
  ℕ, Bool, true, false, List, [], ◌∷◌, ◌++◌, Option, none, some, if◌then◌else◌,
}
use rust_whois.Text.{Str, CaseMap, codes, str_eq}
use rust_whois.Error.{Result, ok, err}
use rust_whois.Data.{LookupStatus, found, ParsedWhoisData, LookupResult, fill_missing_from}
use rust_whois.Dates.{Chrono, Clock}
use rust_whois.Ip.Validated
use rust_whois.Ip.Validated.{ValidatedIpAddress, detect_rir}
use rust_whois.Ip.{Rir, whois_server}
use rust_whois.Parser.Classify.{classify_response}
use rust_whois.Parser.Network.{parse_ip_whois_data_with_analysis}
use rust_whois.Whois.Follow.{follow_referrals}
use rust_whois.Whois.Registry.{Network}

module _ (m : CaseMap) (c : Chrono) where
  -- The `if let` on both parses: the pair of the parsed data and the analysis, filled up.
  abbrev pub enrich :
      Str
      → Option ParsedWhoisData
      → List Str
      → Option ParsedWhoisData
      → Option ParsedWhoisData × List Str
  enrich server none analysis initial = (none, analysis)
  enrich server (some parsed) analysis none = (some parsed, analysis)
  enrich server (some parsed) analysis (some initial) = (
    some (fill_missing_from parsed initial),
    analysis
        ++ ((codes "Backfilled missing fields from initial RIR response (" ++ server ++ codes ")")
            ∷ []),
  )

  abbrev status_of : Str → Option ParsedWhoisData → LookupStatus
  status_of text none = found
  status_of text (some parsed) = classify_response m text parsed

  -- From the answer of the last server to the result; `now` and `later` are the readings of the
  -- clock for the two parses.
  unfoldable pub merge_ip :
      (now later : Clock c) → (server raw_data final_server final_data : Str) → LookupResult
  unfolding parse_ip_whois_data_with_analysis classify_response
  merge_ip now later server raw_data final_server final_data =
      let (parsed, analysis) = parse_ip_whois_data_with_analysis m c now final_data in
      let (initial, unused) = parse_ip_whois_data_with_analysis m c later raw_data in
      let (parsed', analysis') =
        if str_eq final_server server
        then (parsed, analysis)
        else enrich server parsed analysis initial in
      record {
        server = final_server;
        raw_data = final_data;
        parsed_data = parsed';
        parsing_analysis = analysis';
        status = status_of final_data parsed';
      }

  module _ {W : Type 0} (n : Network W) (max_referrals : ℕ) where
    abbrev answered_ip :
        (now later : Clock c) → (ip_addr server : Str) → Result Str → W → Result LookupResult × W
    answered_ip now later ip_addr server (err e) w = (err e, w)
    answered_ip now later ip_addr server (ok raw_data) w =
        let ((final_server, final_data), w') =
          follow_referrals n.referral_whois_query m ip_addr max_referrals server raw_data w in
        (ok (merge_ip now later server raw_data final_server final_data), w')

    abbrev pub at_rir :
        (now later : Clock c) → (ip_addr : Str) → Result Rir → W → Result LookupResult × W
    at_rir now later ip_addr (err e) w = (err e, w)
    at_rir now later ip_addr (ok rir) w =
        let (answer, w') = n.raw_whois_query (whois_server rir) ip_addr w in
        answered_ip now later ip_addr (whois_server rir) answer w'

    abbrev pub validated_ip :
        (now later : Clock c)
        → (ip_addr : Str) → Result ValidatedIpAddress
        → W
        → Result LookupResult × W
    validated_ip now later ip_addr (err e) w = (err e, w)
    validated_ip now later ip_addr (ok ip) w = at_rir now later ip_addr (detect_rir ip) w

    unfoldable pub lookup_ip : (now later : Clock c) → (ip_addr : Str) → W → Result LookupResult × W
    unfolding Validated.new detect_rir whois_server follow_referrals merge_ip
    lookup_ip now later ip_addr w = validated_ip now later ip_addr (Validated.new ip_addr) w
