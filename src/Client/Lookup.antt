-- ===== src/Client/Lookup.antt =====
-- src/lib.rs: `lookup_with_options` and what it calls. The two services are parameters on a world
-- `W`, and so is each reading of the elapsed time, in milliseconds.
pub mod Tiering
use rust_whois.Prelude.{
  ℕ, String, Bool, true, false, List, [], ◌∷◌, ◌++◌, Option, none, some, if◌then◌else◌,
}
use rust_whois.Text.{Str, CaseMap, codes}
use rust_whois.Error.{WhoisError, Result, ok, err}
use rust_whois.Data.{LookupResult, WhoisResponse}
use rust_whois.Cache.{CacheService, Tiers, get_or_fetch}
use rust_whois.Client.Query.{DnsParser, DetectedQueryType, new_query, is_ip, into_inner}

-- `RdapService` and `WhoisService`: a lookup of a domain and of an address.
pub record Services (W : Type 0) : Type 0 where
  pub rdap_lookup : Str → W → Result LookupResult × W
  pub rdap_lookup_ip : Str → W → Result LookupResult × W
  pub whois_lookup : Str → W → Result LookupResult × W
  pub whois_lookup_ip : Str → W → Result LookupResult × W

abbrev pub with_prefix : String → LookupResult → LookupResult
with_prefix prefix r = record r { server = codes prefix ++ r.server }

abbrev pub prefixed : String → Result LookupResult → Result LookupResult
prefixed prefix (ok r) = ok (with_prefix prefix r)
prefixed prefix (err e) = err e

-- `if response.cached { response.query_time_ms = .. }`
abbrev pub retimed : ℕ → Result WhoisResponse → Result WhoisResponse
retimed elapsed (err e) = err e
retimed elapsed (ok r) = ok (if r.cached then record r { query_time_ms = elapsed } else r)

module _ {W : Type 0} (services : Services W) where
  abbrev pub or_whois : Str → Bool → Result LookupResult → W → Result LookupResult × W
  or_whois query ip (ok r) w = (ok (with_prefix "RDAP: " r), w)
  or_whois query ip (err e) w =
      let (answer, w') =
        if ip then services.whois_lookup_ip query w else services.whois_lookup query w in
      (prefixed "WHOIS: " answer, w')

  unfoldable pub lookup_with_fallback : Str → Bool → W → Result LookupResult × W
  lookup_with_fallback query ip w =
      let (answer, w') =
        if ip then services.rdap_lookup_ip query w else services.rdap_lookup query w in
      or_whois query ip answer w'

  abbrev pub packaged : Str → ℕ → Result LookupResult → Result WhoisResponse
  packaged query query_time (err e) = err e
  packaged query query_time (ok result) = ok (record {
    domain = query;
    whois_server = result.server;
    raw_data = result.raw_data;
    parsed_data = result.parsed_data;
    lookup_status = result.status;
    cached = false;
    query_time_ms = query_time;
    parsing_analysis = some result.parsing_analysis;
  })

  unfoldable pub fetch_response : Str → Bool → (query_time : ℕ) → W → Result WhoisResponse × W
  unfolding lookup_with_fallback
  fetch_response query ip query_time w =
      let (answer, w') = lookup_with_fallback query ip w in (packaged query query_time answer, w')

  -- The lookup past the cache.
  abbrev pub direct :
      {L B : Type 0} → Str → Bool → ℕ → Tiers L B W → Result WhoisResponse × Tiers L B W
  direct query ip query_time s =
      let (answer, w) = fetch_response query ip query_time s.net in (answer, record s { net = w })

  abbrev pub through :
      {L B : Type 0}
      → Option (CacheService L B)
      → Str
      → Bool
      → (query_time elapsed : ℕ) → Bool
      → Tiers L B W
      → Result WhoisResponse × Tiers L B W
  through none query ip query_time elapsed others s = direct query ip query_time s
  through (some c) query ip query_time elapsed others s =
      let (answer, s') = get_or_fetch c query (fetch_response query ip query_time) others s in
      (retimed elapsed answer, s')

  module _ {L B : Type 0} (cache : Option (CacheService L B)) where
    -- `query_time` and `elapsed` are the two readings of the time since the start; `others` tells
    -- whether another caller waits for the same key.
    unfoldable pub lookup_internal :
        Str
        → (ip fresh : Bool) → (query_time elapsed : ℕ) → (others : Bool) → Tiers L B W
        → Result WhoisResponse × Tiers L B W
    unfolding fetch_response get_or_fetch
    lookup_internal query ip fresh query_time elapsed others s =
        if fresh
        then direct query ip query_time s
        else through cache query ip query_time elapsed others s

    abbrev pub validated :
        (fresh : Bool)
        → (query_time elapsed : ℕ) → (others : Bool) → Result DetectedQueryType
        → Tiers L B W
        → Result WhoisResponse × Tiers L B W
    validated fresh query_time elapsed others (err e) s = (err e, s)
    validated fresh query_time elapsed others (ok q) s =
        lookup_internal (into_inner q) (is_ip q) fresh query_time elapsed others s

    unfoldable pub lookup_with_options :
        CaseMap
        → DnsParser
        → Str
        → (fresh : Bool) → (query_time elapsed : ℕ) → (others : Bool) → Tiers L B W
        → Result WhoisResponse × Tiers L B W
    unfolding new_query lookup_internal
    lookup_with_options m parse_dns_name query fresh query_time elapsed others s =
        validated fresh query_time elapsed others (new_query m parse_dns_name query) s
