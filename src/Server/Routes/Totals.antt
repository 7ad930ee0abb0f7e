-- ===== src/Server/Routes/Totals.antt =====
-- src/main.rs and src/metrics.rs: the counters over a sequence of requests.
use rust_whois.Prelude.{
  ℕ, ◌+◌, ◌≤◌, ◌≡◌, refl, sym, subst, Bool, true, false, ◌||◌, List, [], ◌∷◌, ◌++◌, if◌then◌else◌,
  arith, length,
}
use rust_whois.Text.{Str, CaseMap, codes, str_eq}
use rust_whois.Error.{WhoisError, invalid_domain, invalid_ip_address, Result, ok, err}
use rust_whois.Data.{WhoisResponse}
use rust_whois.Client.Query.{DnsParser, DetectedQueryType, new_query, into_inner}
use rust_whois.Server.Metrics.{Recording}
use rust_whois.Server.RateLimiter.{Governor}
use rust_whois.Server.Handlers.{
  Server, error_label, validate_query_with_metrics, whois_lookup, whois_lookup_post, whois_debug,
  whois_lookup_path, whois_debug_path, performed, validated_with_metrics, perform_whois_lookup,
}
use rust_whois.Server.Handlers.Counted.{
  count, count-quiet, hits_of, misses_of, shown_result, requests, hits, misses,
  perform_whois_lookup-Tallied,
}
use rust_whois.Server.Routes.{
  Request, get_whois, post_whois, get_debug, get_whois_path, get_debug_path, get_health,
  get_metrics, found_record, health_report, error_report, plain_text, Response, whois_response,
  responding, Vitals, handle,
}

-- Whether a response has a record, and one from the cache, or else one that is not.
abbrev pub hit_in : Response → ℕ
hit_in r = elim r.body [
  | found_record response ↦ if response.cached then 1 else 0
  | health_report health ↦ 0
  | error_report text code ↦ 0
  | plain_text text ↦ 0
]

abbrev pub miss_in : Response → ℕ
miss_in r = elim r.body [
  | found_record response ↦ if response.cached then 0 else 1
  | health_report health ↦ 0
  | error_report text code ↦ 0
  | plain_text text ↦ 0
]

unfoldable pub total : (Response → ℕ) → List Response → ℕ
total f [] = 0
total f (r ∷ rs) = f r + total f rs

-- The counters before and after a request, by its response.
abbrev Noted : (before after : List Recording) → Response → Type 0
Noted before after r =
    (count hits after ≡ count hits before + hit_in r)
    × (count misses after ≡ count misses before + miss_in r)
    × (count requests before + hit_in r + miss_in r ≤ count requests after)
    × (count requests after ≤ count requests before + 1)

whois_response-hits :
    (debug : Bool) (answer : Result WhoisResponse)
    → let r = whois_response (shown_result debug answer) in
      (hit_in r ≡ hits_of answer)
      × (miss_in r ≡ misses_of answer)
      × (hits_of answer + misses_of answer ≤ 1)
unfolding whois_response
whois_response-hits debug (err e) = (refl, refl, omega arith)
whois_response-hits debug (ok response) = ground arith

count-error_label :
    (name : Str) (e : WhoisError)
    → str_eq (codes "whois_errors_total") name ≡ false
    → count name (error_label e ∷ []) ≡ 0
unfolding count
count-error_label name (invalid_domain s) other = rw other refl
count-error_label name (invalid_ip_address s) other = rw other refl
count-error_label name _ other = rw other refl

-- An error that is only labelled is no request, hit or miss.
note-Noted :
    (before : List Recording) (e : WhoisError)
    → Noted before (before ++ (error_label e ∷ [])) (whois_response (err e))
unfolding whois_response str_eq
note-Noted before e =
    let r = count-quiet requests before _ (count-error_label requests e refl) in
    let h = count-quiet hits before _ (count-error_label hits e refl) in
    let u = count-quiet misses before _ (count-error_label misses e refl) in
    (omega arith, omega arith, omega arith, omega arith)

module _ {W : Type 0} {governor : Governor} (m : CaseMap)
    (lookup : Str → Bool → W → Result WhoisResponse × W) where
  perform-Noted :
      (query : Str) (fresh debug : Bool) (s : Server W governor)
      → let (response, s') = responding (perform_whois_lookup m lookup query fresh debug s) in
        Noted s.recorded s'.recorded response
  perform-Noted query fresh debug s =
      let answer = (lookup query (fresh || debug) s.world).0 in
      let (out, same, (r, h, u)) = perform_whois_lookup-Tallied m lookup query fresh debug s in
      let (hit, miss, one) = whois_response-hits debug answer in
      let after = (perform_whois_lookup m lookup query fresh debug s).1.recorded in
      subst (λ o. Noted s.recorded after (whois_response o)) (sym out)
        (omega arith, omega arith, omega arith, omega arith)

  module _ (parse_dns_name : DnsParser) where
    asked-Noted :
        (text : Str) (fresh debug : Bool) (s : Server W governor)
        → let (validated, s') = validate_query_with_metrics m lookup parse_dns_name text s in
          let (response, s'') =
            responding (performed m lookup parse_dns_name fresh debug validated s') in
          Noted s.recorded s''.recorded response
    unfolding validate_query_with_metrics
    asked-Noted text fresh debug s = go (new_query m parse_dns_name text)
      where
        go :
            (q : Result DetectedQueryType)
            → let (validated, s') = validated_with_metrics m lookup parse_dns_name q s in
              let (response, s'') =
                responding (performed m lookup parse_dns_name fresh debug validated s') in
              Noted s.recorded s''.recorded response
        go (ok q) = perform-Noted (into_inner q) fresh debug s
        go (err e) = note-Noted s.recorded e

    handle-Noted :
        {Handle : Type 0} (v : Vitals Handle) (request : Request) (s : Server W governor)
        → let (response, s') = handle m lookup parse_dns_name v request s in
          Noted s.recorded s'.recorded response
    unfolding handle whois_lookup whois_lookup_post whois_debug whois_lookup_path whois_debug_path
    handle-Noted v (get_whois params) s = asked-Noted params.domain params.fresh false s
    handle-Noted v (post_whois payload) s = asked-Noted payload.domain payload.fresh false s
    handle-Noted v (get_debug params) s = asked-Noted params.domain true true s
    handle-Noted v (get_whois_path domain fresh) s = asked-Noted domain fresh false s
    handle-Noted v (get_debug_path domain) s = asked-Noted domain true true s
    handle-Noted v get_health s = (omega arith, omega arith, omega arith, omega arith)
    handle-Noted v get_metrics s = (omega arith, omega arith, omega arith, omega arith)

    -- One request after another.
    unfoldable pub handle_all :
        {Handle : Type 0}
        → Vitals Handle
        → List Request
        → Server W governor
        → List Response × Server W governor
    unfolding handle
    handle_all v [] s = ([], s)
    handle_all v (request ∷ rest) s =
        let (response, s') = handle m lookup parse_dns_name v request s in
        let (responses, s'') = handle_all v rest s' in (response ∷ responses, s'')

    -- Over any sequence of requests, whatever the client answers: the counters of hits and misses go
    -- up by the number of records that were sent from the cache and of those that were not, and the
    -- counter of requests by no less than both together and by no more than the requests.
    pub handle_all-Noted :
        {Handle : Type 0} (v : Vitals Handle) (sent : List Request) (s : Server W governor)
        → let (responses, s') = handle_all v sent s in
          (count hits s'.recorded ≡ count hits s.recorded + total hit_in responses)
          × (count misses s'.recorded ≡ count misses s.recorded + total miss_in responses)
          × (count requests s.recorded + total hit_in responses + total miss_in responses
              ≤ count requests s'.recorded)
          × (count requests s'.recorded ≤ count requests s.recorded + length sent)
    unfolding handle_all total
    handle_all-Noted v [] s = (omega arith, omega arith, omega arith, omega arith)
    handle_all-Noted v (request ∷ rest) s =
        let s' = (handle m lookup parse_dns_name v request s).1 in
        let (h, u, low, high) = handle-Noted v request s in
        let (hs, us, lows, highs) = handle_all-Noted v rest s' in
        (omega arith, omega arith, omega arith, omega arith)
