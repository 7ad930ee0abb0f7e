-- ===== src/Server/Handlers.antt =====
-- src/main.rs: the handlers. The client is a parameter, here the lookup of a query on a world, and
-- a handler gives the response or the error that axum turns into one.
pub mod Counted
use rust_whois.Prelude.{
  ℕ, Bool, true, false, ◌&&◌, ◌||◌, List, [], ◌∷◌, ◌++◌, Option, none, some, if◌then◌else◌, ◌/◌,
  ◌-◌,
}
use rust_whois.Text.{Str, CaseMap, codes}
use rust_whois.Error.{WhoisError, invalid_domain, invalid_ip_address, Result, ok, err}
use rust_whois.Data.{LookupStatus, found, not_found, rate_limited, WhoisResponse}
use rust_whois.Client.Query.{DnsParser, DetectedQueryType, new_query, into_inner}
use rust_whois.Server.Metrics.{
  Recording, increment_requests, increment_cache_hits, increment_cache_misses, increment_errors,
  record_query_time,
}
use rust_whois.Server.RateLimiter.{Governor, RateLimiter, check_fresh_query, check_debug_query}

-- What a request changes: the world of the client, the limits, and what is recorded.
pub record Server (W : Type 0) (governor : Governor) : Type 0 where
  pub world : W
  pub rate_limiter : RateLimiter governor
  pub recorded : List Recording

pub record WhoisQuery : Type 0 where
  pub domain : Str
  pub fresh : Bool

pub record HealthResponse : Type 0 where
  pub status : Str
  pub version : Str
  pub uptime_seconds : ℕ

abbrev pub error_label : WhoisError → Recording
error_label (invalid_domain s) = increment_errors "invalid_domain"
error_label (invalid_ip_address s) = increment_errors "invalid_ip"
error_label _ = increment_errors "invalid_query"

abbrev is_rate_limited : LookupStatus → Bool
is_rate_limited rate_limited = true
is_rate_limited _ = false

-- Parsing analysis is debug-only output.
abbrev pub shown : (include_debug : Bool) → WhoisResponse → WhoisResponse
shown true response = response
shown false response = record response { parsing_analysis = none }

-- What a response adds to the record.
unfoldable pub outcome : WhoisResponse → List Recording
outcome response =
    (if response.cached then increment_cache_hits else increment_cache_misses)
      ∷ (if is_rate_limited response.lookup_status
          then increment_errors "upstream_rate_limited" ∷ []
          else [])
    ++ (record_query_time response.query_time_ms ∷ [])

module _ {W : Type 0} {governor : Governor} where
  abbrev pub note : Server W governor → List Recording → Server W governor
  note s recordings = record s { recorded = s.recorded ++ recordings }

  -- The two checks: a soft limit, which only records.
  unfoldable pub check_limits : (fresh include_debug : Bool) → Server W governor → Server W governor
  unfolding check_fresh_query check_debug_query
  check_limits fresh include_debug s =
      let (over_fresh, l) =
        if fresh then check_fresh_query governor s.rate_limiter else (false, s.rate_limiter) in
      let (over_debug, l') = if include_debug then check_debug_query governor l else (false, l) in
      record s {
        rate_limiter = l';
        recorded =
            s.recorded
            ++ ((if over_fresh then increment_errors "fresh_rate_limit_warning" ∷ [] else [])
                ++ (if over_debug then increment_errors "debug_rate_limit_warning" ∷ [] else []));
      }

  abbrev pub replied :
      (include_debug : Bool)
      → Result WhoisResponse
      → Server W governor
      → Result WhoisResponse × Server W governor
  replied include_debug (err e) s = (err e, s)
  replied include_debug (ok response) s =
      (ok (shown include_debug response), note s (outcome response))

  module _ (m : CaseMap) (lookup_with_options : Str → Bool → W → Result WhoisResponse × W) where
    unfoldable pub perform_whois_lookup :
        Str
        → (fresh include_debug : Bool) → Server W governor
        → Result WhoisResponse × Server W governor
    unfolding increment_requests check_limits outcome
    perform_whois_lookup query fresh include_debug s =
        let checked = check_limits fresh include_debug (note s (increment_requests m query ∷ [])) in
        let (answer, world) = lookup_with_options query (fresh || include_debug) checked.world in
        replied include_debug answer (record checked { world = world })

    module _ (parse_dns_name : DnsParser) where
      abbrev pub validated_with_metrics :
          Result DetectedQueryType
          → Server W governor
          → Result DetectedQueryType × Server W governor
      validated_with_metrics (ok q) s = (ok q, s)
      validated_with_metrics (err e) s = (err e, note s (error_label e ∷ []))

      unfoldable pub validate_query_with_metrics :
          Str → Server W governor → Result DetectedQueryType × Server W governor
      unfolding new_query
      validate_query_with_metrics query s =
          validated_with_metrics (new_query m parse_dns_name query) s

      abbrev pub performed :
          (fresh include_debug : Bool)
          → Result DetectedQueryType
          → Server W governor
          → Result WhoisResponse × Server W governor
      performed fresh include_debug (err e) s = (err e, s)
      performed fresh include_debug (ok q) s =
          perform_whois_lookup (into_inner q) fresh include_debug s

      unfoldable pub whois_lookup :
          WhoisQuery → Server W governor → Result WhoisResponse × Server W governor
      unfolding validate_query_with_metrics perform_whois_lookup
      whois_lookup params s =
          let (validated, s') = validate_query_with_metrics params.domain s in
          performed params.fresh false validated s'

      unfoldable pub whois_lookup_post :
          WhoisQuery → Server W governor → Result WhoisResponse × Server W governor
      unfolding whois_lookup
      whois_lookup_post payload s = whois_lookup payload s

      unfoldable pub whois_debug :
          WhoisQuery → Server W governor → Result WhoisResponse × Server W governor
      unfolding validate_query_with_metrics perform_whois_lookup
      whois_debug params s =
          let (validated, s') = validate_query_with_metrics params.domain s in
          performed true true validated s'

      unfoldable pub whois_lookup_path :
          Str → (fresh : Bool) → Server W governor → Result WhoisResponse × Server W governor
      unfolding validate_query_with_metrics perform_whois_lookup
      whois_lookup_path domain fresh s =
          let (validated, s') = validate_query_with_metrics domain s in
          performed fresh false validated s'

      unfoldable pub whois_debug_path :
          Str → Server W governor → Result WhoisResponse × Server W governor
      unfolding validate_query_with_metrics perform_whois_lookup
      whois_debug_path domain s =
          let (validated, s') = validate_query_with_metrics domain s in
          performed true true validated s'

-- `now` and `start_time` are in nanoseconds; `version` is the crate's.
unfoldable pub health_check : (version : Str) → (start_time now : ℕ) → HealthResponse
health_check version start_time now = record {
  status = codes "healthy";
  version = version;
  uptime_seconds = (now - start_time) / 1000000000;
}

-- The status and the text of the response, and what is recorded; `is_elapsed` tells whether the
-- error is that of the timeout layer.
unfoldable pub handle_timeout_error : (is_elapsed : Bool) → (ℕ × Str) × Recording
handle_timeout_error is_elapsed =
    if is_elapsed
    then ((408, codes "Request timed out"), increment_errors "request_timeout")
    else ((500, codes "Internal server error"), increment_errors "internal_error")
