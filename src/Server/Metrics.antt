-- ===== src/Server/Metrics.antt =====
-- src/metrics.rs. The crate metrics is not modelled: what is recorded is the list of the calls of
-- its macros, the first one first, and the exporter is a parameter.
use rust_whois.Prelude.{ℕ, List, [], ◌∷◌, Option, none, some, ◌⊎◌, inl, inr, String}
use rust_whois.Text.{Str, CaseMap, codes}
use rust_whois.Ip.{IpAddr, v4, v6, parse_ip}
use rust_whois.Tld.{extract_tld_simple}

-- `counter!(name, label => value).increment(1)`, `.absolute(n)` and `histogram!(name).record(..)`;
-- a time is in milliseconds.
pub data Recording : Type 0 where
  increment : (name : Str) → (label : Option (Str × Str)) → Recording
  absolute : (name : Str) → (label : Option (Str × Str)) → ℕ → Recording
  record_ms : (name : Str) → ℕ → Recording

abbrev pub labelled : String → Str → Option (Str × Str)
labelled label value = some (codes label, value)

abbrev label_of : CaseMap → Str → Option IpAddr → Str
label_of m domain (some (v4 a)) = codes "ipv4"
label_of m domain (some (v6 a)) = codes "ipv6"
label_of m domain none = extract_tld_simple m domain

-- The label of a request, `extract_tld` of this file.
unfoldable pub extract_tld : CaseMap → Str → Str
unfolding parse_ip extract_tld_simple
extract_tld m domain = label_of m domain (parse_ip domain)

unfoldable pub increment_requests : CaseMap → Str → Recording
unfolding extract_tld
increment_requests m domain =
    increment (codes "whois_requests_total") (labelled "tld" (extract_tld m domain))

abbrev pub increment_cache_hits : Recording
increment_cache_hits = increment (codes "whois_cache_hits_total") none

abbrev pub increment_cache_misses : Recording
increment_cache_misses = increment (codes "whois_cache_misses_total") none

abbrev pub increment_errors : String → Recording
increment_errors error_type =
    increment (codes "whois_errors_total") (labelled "error_type" (codes error_type))

abbrev pub record_query_time : ℕ → Recording
record_query_time duration_ms = record_ms (codes "whois_request_duration_seconds") duration_ms

-- The container of the exporter's handle: an `RwLock`, which a panic poisons.
pub data HandleLock (Handle : Type 0) : Type 0 where
  poisoned : HandleLock Handle
  holds : Option Handle → HandleLock Handle

abbrev hold : {Handle : Type 0} → HandleLock Handle → Handle → HandleLock Handle
hold poisoned handle = poisoned
hold (holds old) handle = holds (some handle)

unfoldable pub init_metrics :
    {Handle : Type 0} → Str ⊎ Handle → HandleLock Handle → HandleLock Handle × List Recording
init_metrics (inl e) lock = (lock, [])
init_metrics (inr handle) lock = (
  hold lock handle,
  absolute (codes "whois_requests_total") (labelled "tld" (codes "unknown")) 0
      ∷ absolute (codes "whois_cache_hits_total") none 0
      ∷ absolute (codes "whois_cache_misses_total") none 0
      ∷ absolute (codes "whois_errors_total") (labelled "error_type" (codes "unknown")) 0
      ∷ record_ms (codes "whois_request_duration_seconds") 0
      ∷ [],
)

-- The status and the text of the response; `render` is the exporter's.
unfoldable pub metrics_handler :
    {Handle : Type 0} → (render : Handle → Str) → HandleLock Handle → ℕ × Str
metrics_handler render poisoned = (500, codes "Metrics lock poisoned")
metrics_handler render (holds none) = (503, codes "Metrics not initialized")
metrics_handler render (holds (some handle)) = (200, render handle)
