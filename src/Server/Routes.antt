-- ===== src/Server/Routes.antt =====
-- src/main.rs: the routes of `main`, and what becomes of a request: its handler, the
-- response that src/errors.rs makes of an error, and the layer of the timeout. The matching of
-- paths and the extraction of parameters are axum's, so a request is its route with what was
-- extracted.
pub mod Masked
pub mod Refused
pub mod Totals
use rust_whois.Prelude.{ℕ, Bool, true, false, List, [], ◌∷◌, Option, none, some}
use rust_whois.Text.{Str, CaseMap, codes}
use rust_whois.Error.{WhoisError, into_response, Result, ok, err}
use rust_whois.Data.{WhoisResponse}
use rust_whois.Config.{Config}
use rust_whois.Cache.{CacheBackend}
use rust_whois.Client.Query.{DnsParser}
use rust_whois.Client.Build.{CacheMode, in_process, tiered}
use rust_whois.Server.Metrics.{HandleLock, metrics_handler}
use rust_whois.Server.RateLimiter.{Governor}
use rust_whois.Server.Handlers.{
  Server, WhoisQuery, HealthResponse, whois_lookup, whois_lookup_post, whois_debug,
  whois_lookup_path, whois_debug_path, health_check, handle_timeout_error, note,
}

-- `REQUEST_TIMEOUT_SECS`
abbrev pub request_timeout_secs : ℕ
request_timeout_secs = 60

pub data Method : Type 0 where
  http_get http_post : Method

pub data Endpoint : Type 0 where
  lookup_endpoint post_endpoint path_endpoint debug_endpoint debug_path_endpoint health_endpoint
        metrics_endpoint :
      Endpoint

-- The calls of `route`, in their order.
unfoldable pub routes : List (Str × Method × Endpoint)
routes =
    (codes "/whois", http_get, lookup_endpoint)
    ∷ (codes "/whois", http_post, post_endpoint)
    ∷ (codes "/whois/{domain}", http_get, path_endpoint)
    ∷ (codes "/whois/debug", http_get, debug_endpoint)
    ∷ (codes "/whois/debug/{domain}", http_get, debug_path_endpoint)
    ∷ (codes "/health", http_get, health_endpoint)
    ∷ (codes "/metrics", http_get, metrics_endpoint)
    ∷ []

-- What axum extracts for each endpoint.
pub data Request : Type 0 where
  get_whois post_whois get_debug : WhoisQuery → Request
  get_whois_path : (domain : Str) → (fresh : Bool) → Request
  get_debug_path : (domain : Str) → Request
  get_health get_metrics : Request

pub data Body : Type 0 where
  found_record : WhoisResponse → Body
  health_report : HealthResponse → Body
  -- `{"error": text, "status": code}`
  error_report : (text : Str) → (code : ℕ) → Body
  plain_text : Str → Body

pub record Response : Type 0 where
  pub code : ℕ
  pub body : Body

abbrev pub error_response : ℕ × Str → Response
error_response (code, text) = record { code = code; body = error_report text code }

-- `Result<Json<WhoisResponse>, WhoisError>` as a response
unfoldable pub whois_response : Result WhoisResponse → Response
unfolding into_response
whois_response (ok response) = record { code = 200; body = found_record response }
whois_response (err e) = error_response (into_response e)

abbrev text_response : ℕ × Str → Response
text_response (code, text) = record { code = code; body = plain_text text }

abbrev pub responding : {S : Type 0} → Result WhoisResponse × S → Response × S
responding (answer, s) = (whois_response answer, s)

-- What the requests for the state of the server read.
pub record Vitals (Handle : Type 0) : Type 0 where
  pub version : Str
  pub start_time : ℕ
  pub clock : ℕ
  pub render : Handle → Str
  pub lock : HandleLock Handle

module _ {W Handle : Type 0} {governor : Governor} (m : CaseMap)
    (lookup_with_options : Str → Bool → W → Result WhoisResponse × W)
    (parse_dns_name : DnsParser) where
  -- The handler of a request.
  unfoldable pub handle : Vitals Handle → Request → Server W governor → Response × Server W governor
  unfolding whois_lookup whois_lookup_post whois_debug whois_lookup_path whois_debug_path
      health_check metrics_handler whois_response
  handle v (get_whois params) s =
      responding (whois_lookup m lookup_with_options parse_dns_name params s)
  handle v (post_whois payload) s =
      responding (whois_lookup_post m lookup_with_options parse_dns_name payload s)
  handle v (get_debug params) s =
      responding (whois_debug m lookup_with_options parse_dns_name params s)
  handle v (get_whois_path domain fresh) s =
      responding (whois_lookup_path m lookup_with_options parse_dns_name domain fresh s)
  handle v (get_debug_path domain) s =
      responding (whois_debug_path m lookup_with_options parse_dns_name domain s)
  handle v get_health s =
      (record { code = 200; body = health_report (health_check v.version v.start_time v.clock) }, s)
  handle v get_metrics s = (text_response (metrics_handler v.render v.lock), s)

  -- Under the layer of the timeout: a handler that is dropped after `request_timeout_secs` leaves
  -- the server as it then is.
  unfoldable pub serve :
      Vitals Handle
      → Request
      → (dropped : Option (Server W governor)) → Server W governor
      → Response × Server W governor
  unfolding handle handle_timeout_error
  serve v request none s = handle v request s
  serve v request (some cut) s =
      let (reply, recording) = handle_timeout_error true in
      (error_response reply, note cut (recording ∷ []))
