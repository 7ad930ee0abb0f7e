-- ===== src/Error.antt =====
-- src/errors.rs: `WhoisError`, its messages, its copy for coalesced waiters and its HTTP response.
-- The payloads of `IoError`, `HttpError` and `ConfigError` are errors of other crates: all that
-- this code does with one is print it, so each is modelled by the text that it prints.
pub mod Duplicate
use rust_whois.Prelude.{ℕ, List, [], ◌∷◌, ◌++◌, ◌≡◌, refl}
use rust_whois.Text.{Str, codes}

pub data WhoisError : Type 0 where
  invalid_domain invalid_ip_address unsupported_ip_address unsupported_tld : Str → WhoisError
  timeout : WhoisError
  io_error http_error rate_limited : Str → WhoisError
  response_too_large invalid_utf8 : WhoisError
  config_error internal : Str → WhoisError

-- `to_string`, from the `#[error(...)]` attributes
unfoldable pub to_string : WhoisError → Str
to_string (invalid_domain s) = codes "Invalid domain: " ++ s
to_string (invalid_ip_address s) = codes "Invalid IP address: " ++ s
to_string (unsupported_ip_address s) = codes "Unsupported IP address: " ++ s
to_string (unsupported_tld s) = codes "Unsupported TLD: " ++ s
to_string timeout = codes "Network timeout"
to_string (io_error e) = codes "IO error: " ++ e
to_string (http_error e) = codes "HTTP error: " ++ e
to_string (rate_limited s) = codes "Upstream rate limited: " ++ s
to_string response_too_large = codes "Response too large"
to_string invalid_utf8 = codes "Invalid UTF-8 in response"
to_string (config_error e) = codes "Configuration error: " ++ e
to_string (internal s) = codes "Internal server error: " ++ s

unfoldable pub duplicate : WhoisError → WhoisError
unfolding to_string
duplicate (invalid_domain s) = invalid_domain s
duplicate (invalid_ip_address s) = invalid_ip_address s
duplicate (unsupported_ip_address s) = unsupported_ip_address s
duplicate (unsupported_tld s) = unsupported_tld s
duplicate timeout = timeout
duplicate (rate_limited s) = rate_limited s
duplicate response_too_large = response_too_large
duplicate invalid_utf8 = invalid_utf8
duplicate (internal s) = internal s
duplicate other = internal (to_string other)

-- The status code and the `error` text of the response.
unfoldable pub into_response : WhoisError → ℕ × Str
unfolding to_string
into_response (invalid_domain s) = (400, to_string (invalid_domain s))
into_response (invalid_ip_address s) = (400, to_string (invalid_ip_address s))
into_response (unsupported_ip_address s) = (400, to_string (unsupported_ip_address s))
into_response (unsupported_tld s) = (400, to_string (unsupported_tld s))
into_response timeout = (408, to_string timeout)
into_response (rate_limited s) =
    (503, codes "Upstream WHOIS/RDAP server is rate limiting queries, retry later")
into_response response_too_large = (413, to_string response_too_large)
into_response invalid_utf8 = (502, codes "Upstream server returned invalid response")
into_response (io_error e) = (500, codes "Internal server error")
into_response (http_error e) = (502, codes "Failed to reach upstream server")
into_response (config_error e) = (500, codes "Internal server error")
into_response (internal msg) = (500, codes "Internal server error")

-- `Result<T, WhoisError>`
pub data Result {ℓ} (A : Type ℓ) : Type ℓ where
  ok : A → Result A
  err : WhoisError → Result A

infixl 5 ◌>>=◌
abbrev pub ◌>>=◌ {ℓ κ} : {A : Type ℓ} {B : Type κ} → Result A → (A → Result B) → Result B
ok a >>= f = f a
err e >>= f = err e
