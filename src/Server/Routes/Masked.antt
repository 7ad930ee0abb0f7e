-- ===== src/Server/Routes/Masked.antt =====
-- src/main.rs: the responses to requests.
use rust_whois.Prelude.{
  ℕ, ◌≡◌, refl, Bool, true, List, [], ◌∷◌, Option, none, some, is_some, ◌⊎◌, inl, inr, any, ◌==◌,
}
use rust_whois.Text.{Str, CaseMap, codes, mem_str}
use rust_whois.Error.{
  WhoisError, invalid_domain, invalid_ip_address, unsupported_ip_address, unsupported_tld, timeout,
  rate_limited, response_too_large, invalid_utf8, io_error, http_error, config_error, internal,
  into_response, Result, ok, err,
}
use rust_whois.Data.{WhoisResponse}
use rust_whois.Client.Query.{DnsParser}
use rust_whois.Server.Metrics.{HandleLock, poisoned, holds, metrics_handler}
use rust_whois.Server.RateLimiter.{Governor}
use rust_whois.Server.Handlers.{Server, handle_timeout_error}
use rust_whois.Server.Routes.Refused.{asked}
use rust_whois.Server.Routes.{
  Request, get_whois, post_whois, get_debug, get_whois_path, get_debug_path, get_health,
  get_metrics, found_record, health_report, error_report, plain_text, Response, whois_response,
  Vitals, handle, serve,
}

-- The texts of the errors that are not the client's.
abbrev pub generic_texts : List Str
generic_texts =
    codes "Internal server error"
    ∷ codes "Failed to reach upstream server"
    ∷ codes "Upstream server returned invalid response"
    ∷ codes "Upstream WHOIS/RDAP server is rate limiting queries, retry later"
    ∷ []

abbrev is_in : List ℕ → ℕ → Bool
is_in codes code = any (λ c. c == code) codes

-- An error has the code that its text repeats; one that is the server's has a generic text.
abbrev pub IsError : ℕ → Str → Type 0
IsError code text =
    (is_in (400 ∷ 408 ∷ 413 ∷ []) code ≡ true)
    ⊎ ((is_in (500 ∷ 502 ∷ 503 ∷ []) code ≡ true) × (mem_str generic_texts text ≡ true))

-- The metrics, or one of two fixed texts why there are none.
abbrev pub Exposes : {Handle : Type 0} → (Handle → Str) → HandleLock Handle → ℕ → Str → Type 0
Exposes render poisoned code text = (code ≡ 500) × (text ≡ codes "Metrics lock poisoned")
Exposes render (holds none) code text = (code ≡ 503) × (text ≡ codes "Metrics not initialized")
Exposes render (holds (some h)) code text = (code ≡ 200) × (text ≡ render h)

-- What the response to a request may be: a record to a query, a report to the check of the health,
-- plain text to the request for the metrics, and an error.
abbrev pub Masked : {Handle : Type 0} → Vitals Handle → Request → Response → Type 0
Masked v request r = elim r.body [
  | found_record response ↦ (is_some (asked request) ≡ true) × (r.code ≡ 200)
  | health_report health ↦ (request ≡ get_health) × (r.code ≡ 200)
  | error_report text code ↦ (code ≡ r.code) × IsError code text
  | plain_text text ↦ (request ≡ get_metrics) × Exposes v.render v.lock r.code text
]

into_response-IsError : (e : WhoisError) → let (code, text) = into_response e in IsError code text
unfolding into_response mem_str
into_response-IsError (invalid_domain s) = inl refl
into_response-IsError (invalid_ip_address s) = inl refl
into_response-IsError (unsupported_ip_address s) = inl refl
into_response-IsError (unsupported_tld s) = inl refl
into_response-IsError timeout = inl refl
into_response-IsError (rate_limited s) = inr (refl, refl)
into_response-IsError response_too_large = inl refl
into_response-IsError invalid_utf8 = inr (refl, refl)
into_response-IsError (io_error e) = inr (refl, refl)
into_response-IsError (http_error e) = inr (refl, refl)
into_response-IsError (config_error e) = inr (refl, refl)
into_response-IsError (internal s) = inr (refl, refl)

module _ {Handle : Type 0} (v : Vitals Handle) where
  whois_response-Masked :
      (request : Request) (r : Result WhoisResponse)
      → is_some (asked request) ≡ true
      → Masked v request (whois_response r)
  unfolding whois_response
  whois_response-Masked request (ok response) is_query = (is_query, refl)
  whois_response-Masked request (err e) is_query = (refl, into_response-IsError e)

  metrics_handler-Exposes :
      (lock : HandleLock Handle)
      → let (code, text) = metrics_handler v.render lock in Exposes v.render lock code text
  unfolding metrics_handler
  metrics_handler-Exposes poisoned = (refl, refl)
  metrics_handler-Exposes (holds none) = (refl, refl)
  metrics_handler-Exposes (holds (some h)) = (refl, refl)

module _ {W Handle : Type 0} {governor : Governor} (m : CaseMap)
    (lookup_with_options : Str → Bool → W → Result WhoisResponse × W)
    (parse_dns_name : DnsParser) where
  handle-Masked :
      (v : Vitals Handle) (request : Request) (s : Server W governor)
      → Masked v request (handle m lookup_with_options parse_dns_name v request s).0
  unfolding handle
  handle-Masked v (get_whois params) s = whois_response-Masked v (get_whois params) _ refl
  handle-Masked v (post_whois payload) s = whois_response-Masked v (post_whois payload) _ refl
  handle-Masked v (get_debug params) s = whois_response-Masked v (get_debug params) _ refl
  handle-Masked v (get_whois_path domain fresh) s =
      whois_response-Masked v (get_whois_path domain fresh) _ refl
  handle-Masked v (get_debug_path domain) s = whois_response-Masked v (get_debug_path domain) _ refl
  handle-Masked v get_health s = (refl, refl)
  handle-Masked v get_metrics s = (refl, metrics_handler-Exposes v v.lock)

  -- Whatever the request and whatever the client answers or however late it is, the response is one
  -- of four: a record, to a query only, with 200; a health report, to the check of the health only,
  -- with 200; plain text, to the request for the metrics only: the metrics with 200, or one of two
  -- fixed texts, with 500 where the lock is poisoned and with 503 where there is no recorder; or
  -- else an error report with the code that its body repeats, one of 400, 408, 413, 500, 502 and
  -- 503, whose text is from 500 on one of four that tell nothing of the cause.
  pub serve-Masked :
      (v : Vitals Handle) (request : Request) (dropped : Option (Server W governor))
      (s : Server W governor)
      → Masked v request (serve m lookup_with_options parse_dns_name v request dropped s).0
  unfolding serve handle_timeout_error
  serve-Masked v request none s = handle-Masked v request s
  serve-Masked v request (some cut) s = (refl, inl refl)
