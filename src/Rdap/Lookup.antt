-- ===== src/Rdap/Lookup.antt =====
-- src/rdap.rs: `lookup` and `lookup_ip`, on the parts of the modules beside this one.
pub mod Answered
use rust_whois.Prelude.{Bool, true, false, List, [], ◌∷◌, ◌++◌, Option, none, some, ◌⊎◌, ℕ}
use rust_whois.Text.{Str, codes}
use rust_whois.Error.{WhoisError, Result, ok, err}
use rust_whois.Data.{LookupStatus, found, not_found, rate_limited, ParsedWhoisData, LookupResult}
use rust_whois.Dates.{Chrono, Clock}
use rust_whois.Tld.{Psl, extract_tld}
use rust_whois.Ip.{Rir, rdap_server}
use rust_whois.Ip.Validated
use rust_whois.Ip.Validated.{ValidatedIpAddress, detect_rir}
use rust_whois.Retry.{Retry}
use rust_whois.Rdap.Json.{Value}
use rust_whois.Rdap.Domain.{RdapDomainResponse, parse_rdap_response}
use rust_whois.Rdap.Network.{parse_rdap_ip_response}
use rust_whois.Rdap.Query.{Http, Answer, query_rdap_resource}
use rust_whois.Rdap.Bootstrap.{Readings, Service, Outcome, returns, panics}
use rust_whois.Rdap.Discovery.{RdapBootstrap, find_rdap_server}

-- From the answer of the server to the result: a 404 is not parsed.
abbrev pub result_of :
    (parse : Str → Option ParsedWhoisData × List Str)
    → (absent : Str) → (server raw_data : Str) → LookupStatus
    → LookupResult
result_of parse absent server raw_data not_found = record {
  server = server;
  raw_data = raw_data;
  parsed_data = none;
  parsing_analysis = absent ∷ [];
  status = not_found;
}
result_of parse absent server raw_data status =
    let (parsed_data, parsing_analysis) = parse raw_data in
    record {
      server = server;
      raw_data = raw_data;
      parsed_data = parsed_data;
      parsing_analysis = parsing_analysis;
      status = status;
    }

abbrev pub reported :
    (parse : Str → Option ParsedWhoisData × List Str)
    → (absent : Str) → (server : Str) → Answer
    → Result LookupResult
reported parse absent server (err e) = err e
reported parse absent server (ok (raw_data, status)) =
    ok (result_of parse absent server raw_data status)

module _ {W : Type 0} (http : Http W) (r : Retry) (max_response_size : ℕ) (c : Chrono)
    (now : Clock c) where
  module _ (psl : Psl) (from_str : Str → Str ⊎ RdapDomainResponse)
      (fetch : W → Result RdapBootstrap × W) (at : Readings) where
    abbrev pub at_server :
        (domain : Str)
        → Outcome (Result Str) × Service RdapBootstrap
        → W
        → (Outcome (Result LookupResult) × Service RdapBootstrap) × W
    at_server domain (panics, s) w = ((panics, s), w)
    at_server domain (returns (err e), s) w = ((returns (err e), s), w)
    at_server domain (returns (ok server), s) w =
        let (answer, w') =
          query_rdap_resource http max_response_size (codes "domain") r server domain w in
        (
          (
            returns (
                reported (parse_rdap_response from_str c now)
                  (codes "Domain " ++ domain ++ codes " is not registered (RDAP 404)") server
                  answer),
            s,
          ),
          w',
        )

    abbrev pub at_tld :
        (domain : Str)
        → Result Str
        → Service RdapBootstrap
        → W
        → (Outcome (Result LookupResult) × Service RdapBootstrap) × W
    at_tld domain (err e) s w = ((returns (err e), s), w)
    at_tld domain (ok tld) s w =
        let (found_server, w') = find_rdap_server fetch at tld s w in
        at_server domain found_server w'

    unfoldable pub lookup :
        Str
        → Service RdapBootstrap
        → W
        → (Outcome (Result LookupResult) × Service RdapBootstrap) × W
    unfolding extract_tld find_rdap_server query_rdap_resource parse_rdap_response
    lookup domain s w = at_tld domain (extract_tld psl domain) s w

  module _ (from_str : Str → Str ⊎ Value) where
    abbrev pub at_rir : (ip_addr : Str) → Result Rir → W → Result LookupResult × W
    at_rir ip_addr (err e) w = (err e, w)
    at_rir ip_addr (ok rir) w =
        let (answer, w') =
          query_rdap_resource http max_response_size (codes "ip") r (rdap_server rir) ip_addr w in
        (
          reported (parse_rdap_ip_response from_str c now)
              (codes "IP " ++ ip_addr ++ codes " has no registration record (RDAP 404)")
              (rdap_server rir) answer,
          w',
        )

    abbrev pub validated_ip :
        (ip_addr : Str) → Result ValidatedIpAddress → W → Result LookupResult × W
    validated_ip ip_addr (err e) w = (err e, w)
    validated_ip ip_addr (ok ip) w = at_rir ip_addr (detect_rir ip) w

    unfoldable pub lookup_ip : Str → W → Result LookupResult × W
    unfolding Validated.new detect_rir rdap_server query_rdap_resource parse_rdap_ip_response
    lookup_ip ip_addr w = validated_ip ip_addr (Validated.new ip_addr) w
