-- ===== src/Rdap/Query.antt =====
-- src/rdap.rs: `query_rdap_resource`. The crates reqwest, url and backon
-- are parameters, and so is the text that reqwest prints for a status.
pub mod Attempts
use rust_whois.Prelude.{
  ℕ, Bool, true, false, ◌&&◌, ◌||◌, List, [], ◌∷◌, ◌++◌, Option, none, some, ◌⊎◌, inl, inr,
  if◌then◌else◌, ◌==◌, ltb, leb, not,
}
use rust_whois.Text.{Str, codes, len}
use rust_whois.Error.{
  WhoisError, timeout, http_error, rate_limited, response_too_large, internal, Result, ok, err,
}
use rust_whois.Data.{LookupStatus, found, not_found}
use rust_whois.Retry.{Retry}

-- A response: its status, the header `Content-Length` if there is one, and what `text()` gives.
pub record HttpResponse : Type 0 where
  pub status : ℕ
  pub content_length : Option ℕ
  pub text : Str ⊎ Str

-- reqwest and url. An error is its text.
pub record Http (W : Type 0) : Type 1 where
  pub Url : Type 0
  pub parse : Str → Str ⊎ Url
  -- `path_segments_mut()` and two calls of `push`; `none` where the URL cannot be a base
  pub push : Url → Str → Str → Option Url
  -- `client.get(url).header("Accept", ..).send()`
  pub send : Url → W → (Str ⊎ HttpResponse) × W
  pub show_status : ℕ → Str

-- `StatusCode::is_success`
abbrev pub is_success : ℕ → Bool
is_success status = leb 200 status && leb status 299

-- `MAX_RETRY_ATTEMPTS`
abbrev pub max_retry_attempts : ℕ
max_retry_attempts = 3

-- The test of `.when(..)`
unfoldable pub is_transient : WhoisError → Bool
is_transient timeout = true
is_transient (http_error e) = true
is_transient _ = false

-- `content_length as usize > max_response_size`
abbrev too_long : Option ℕ → ℕ → Bool
too_long none max_response_size = false
too_long (some n) max_response_size = ltb max_response_size n

abbrev pub Answer : Type 0
Answer = Result (Str × LookupStatus)

abbrev checked_size : ℕ → Str ⊎ Str → Answer
checked_size max_response_size (inl e) = err (http_error e)
checked_size max_response_size (inr raw_data) =
    if ltb max_response_size (len raw_data) then err response_too_large else ok (raw_data, found)

-- `unwrap_or_default`
abbrev or_empty : Str ⊎ Str → Str
or_empty (inl e) = []
or_empty (inr s) = s

module _ {W : Type 0} (http : Http W) (max_response_size : ℕ) (resource_type : Str) where
  open http use {Url, parse, push, send, show_status}

  -- What is made of the response to one request.
  unfoldable pub read_response : Str ⊎ HttpResponse → Answer
  unfolding len
  read_response (inl e) = err (http_error e)
  read_response (inr response) =
      if response.status == 404
      then ok (or_empty response.text, not_found)
      else if response.status == 429
      then err
          (rate_limited (codes "RDAP server returned 429 for " ++ resource_type ++ codes " query"))
      else if not (is_success response.status)
      then err (
          internal (
            codes "RDAP "
            ++ resource_type
            ++ codes " query failed with status: "
            ++ show_status response.status))
      else if too_long response.content_length max_response_size
      then err response_too_large
      else checked_size max_response_size response.text

  -- The closure that is retried.
  unfoldable pub attempt : Url → W → Answer × W
  unfolding read_response
  attempt url w = let (response, w') = send url w in (read_response response, w')

  abbrev pub query_url : Retry → Option Url → W → Answer × W
  query_url r none w =
      (err (internal (codes "Cannot construct RDAP URL (base URL cannot be a base)")), w)
  query_url r (some url) w = r.retry is_transient max_retry_attempts (attempt url) w

  abbrev pub query_parsed : Retry → (server query : Str) → Str ⊎ Url → W → Answer × W
  query_parsed r server query (inl e) w =
      (err (internal (codes "Invalid RDAP server URL '" ++ server ++ codes "': " ++ e)), w)
  query_parsed r server query (inr url) w = query_url r (push url resource_type query) w

  unfoldable pub query_rdap_resource : Retry → (server query : Str) → W → Answer × W
  unfolding attempt is_transient
  query_rdap_resource r server query w = query_parsed r server query (parse server) w
