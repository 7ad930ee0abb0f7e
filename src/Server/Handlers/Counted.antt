-- ===== src/Server/Handlers/Counted.antt =====
-- src/main.rs: the record of a request.
use rust_whois.Prelude.{
  ℕ, suc, ◌+◌, ◌≡◌, refl, ◌∙◌, Bool, true, false, ◌||◌, List, [], ◌∷◌, ◌++◌, if◌then◌else◌, arith,
}
use rust_whois.Text.{Str, CaseMap, codes, str_eq}
use rust_whois.Error.{Result, ok, err}
use rust_whois.Data.{WhoisResponse}
use rust_whois.Server.Metrics.{
  Recording, increment, absolute, record_ms, increment_requests, increment_errors,
}
use rust_whois.Server.RateLimiter.{Governor, check_fresh_query, check_debug_query}
use rust_whois.Server.Handlers.{
  Server, shown, outcome, check_limits, replied, note, perform_whois_lookup,
}

-- How often a counter is incremented.
unfoldable pub count : Str → List Recording → ℕ
unfolding str_eq
count name [] = 0
count name (increment counter label ∷ rs) =
    let rest = count name rs in if str_eq counter name then suc rest else rest
count name (absolute counter label n ∷ rs) = count name rs
count name (record_ms histogram ms ∷ rs) = count name rs

abbrev pub hits_of : Result WhoisResponse → ℕ
hits_of (err e) = 0
hits_of (ok response) = if response.cached then 1 else 0

abbrev pub misses_of : Result WhoisResponse → ℕ
misses_of (err e) = 0
misses_of (ok response) = if response.cached then 0 else 1

abbrev pub shown_result : Bool → Result WhoisResponse → Result WhoisResponse
shown_result include_debug (err e) = err e
shown_result include_debug (ok response) = ok (shown include_debug response)

abbrev pub requests : Str
requests = codes "whois_requests_total"

abbrev pub hits : Str
hits = codes "whois_cache_hits_total"

abbrev pub misses : Str
misses = codes "whois_cache_misses_total"

-- The counters after some recordings, as those before and what an answer adds.
abbrev pub Tallied : (before after : List Recording) → (asked : ℕ) → Result WhoisResponse → Type 0
Tallied before after asked answer =
    (count requests after ≡ count requests before + asked)
    × (count hits after ≡ count hits before + hits_of answer)
    × (count misses after ≡ count misses before + misses_of answer)

count-++ :
    (name : Str) (rs ss : List Recording) → count name (rs ++ ss) ≡ count name rs + count name ss
unfolding count
count-++ name [] ss = omega arith
count-++ name (increment counter label ∷ rs) ss = let ih = count-++ name rs ss in ground arith
count-++ name (absolute counter label n ∷ rs) ss = count-++ name rs ss
count-++ name (record_ms histogram ms ∷ rs) ss = count-++ name rs ss

pub count-quiet :
    (name : Str) (rs ss : List Recording)
    → count name ss ≡ 0
    → count name (rs ++ ss) ≡ count name rs
count-quiet name rs ss quiet = let total = count-++ name rs ss in omega arith

count-outcome :
    (response : WhoisResponse)
    → (count requests (outcome response) ≡ 0)
      × (count hits (outcome response) ≡ hits_of (ok response))
      × (count misses (outcome response) ≡ misses_of (ok response))
unfolding count outcome str_eq
count-outcome response = ground arith

count-warned :
    (name : Str) (fresh debug : Bool)
    → str_eq (codes "whois_errors_total") name ≡ false
    → count name (
        (if fresh then increment_errors "fresh_rate_limit_warning" ∷ [] else [])
        ++ (if debug then increment_errors "debug_rate_limit_warning" ∷ [] else []))
      ≡ 0
unfolding count
count-warned name true true other = ground arith
count-warned name true false other = ground arith
count-warned name false true other = ground arith
count-warned name false false other = refl

module _ {W : Type 0} {governor : Governor} where
  count-check_limits :
      (name : Str) (fresh debug : Bool) (s : Server W governor)
      → str_eq (codes "whois_errors_total") name ≡ false
      → count name (check_limits fresh debug s).recorded ≡ count name s.recorded
  unfolding check_limits
  count-check_limits name fresh debug s other =
      let over_fresh =
        if fresh then check_fresh_query governor s.rate_limiter else (false, s.rate_limiter) in
      let over_debug =
        if debug then check_debug_query governor over_fresh.1 else (false, over_fresh.1) in
      count-quiet name s.recorded
        ((if over_fresh.0 then increment_errors "fresh_rate_limit_warning" ∷ [] else [])
          ++ (if over_debug.0 then increment_errors "debug_rate_limit_warning" ∷ [] else []))
        (count-warned name over_fresh.0 over_debug.0 other)

  replied-Tallied :
      (debug : Bool) (answer : Result WhoisResponse) (s : Server W governor)
      → let (out, s') = replied debug answer s in
        (out ≡ shown_result debug answer)
        × (s'.world ≡ s.world)
        × (s'.rate_limiter ≡ s.rate_limiter)
        × Tallied s.recorded s'.recorded 0 answer
  replied-Tallied debug (err e) s = (refl, refl, refl, (omega arith, omega arith, omega arith))
  replied-Tallied debug (ok response) s =
      let (no_request, hit, miss) = count-outcome response in
      let total_requests = count-++ requests s.recorded (outcome response) in
      let total_hits = count-++ hits s.recorded (outcome response) in
      let total_misses = count-++ misses s.recorded (outcome response) in
      (refl, refl, refl, (omega arith, omega arith, omega arith))

  module _ (m : CaseMap) (lookup_with_options : Str → Bool → W → Result WhoisResponse × W) where
    count-checked :
        (name query : Str) (fresh debug : Bool) (s : Server W governor)
        → str_eq (codes "whois_errors_total") name ≡ false
        → count name (check_limits fresh debug (note s (increment_requests m query ∷ []))).recorded
          ≡ count name s.recorded + count name (increment_requests m query ∷ [])
    count-checked name query fresh debug s other =
        count-check_limits name fresh debug _ other ∙ count-++ name s.recorded _

    -- A lookup asks the client once, past its cache where the request is fresh or for debugging. It
    -- gives the client's error or response, without the analysis unless it is for debugging. The
    -- requests counted go up by one, and of the cache hits and misses exactly one by one where there
    -- is a response, as the response says, and none where there is an error.
    pub perform_whois_lookup-Tallied :
        (query : Str) (fresh debug : Bool) (s : Server W governor)
        → let (answer, world) = lookup_with_options query (fresh || debug) s.world in
          let (out, s') = perform_whois_lookup m lookup_with_options query fresh debug s in
          (out ≡ shown_result debug answer)
          × (s'.world ≡ world)
          × Tallied s.recorded s'.recorded 1 answer
    unfolding perform_whois_lookup check_limits increment_requests count str_eq
    perform_whois_lookup-Tallied query fresh debug s =
        let checked = check_limits fresh debug (note s (increment_requests m query ∷ [])) in
        let (answer, world) = lookup_with_options query (fresh || debug) s.world in
        let (shown_, same, kept, (r, h, u)) =
          replied-Tallied debug answer (record checked { world = world }) in
        let r0 = count-checked requests query fresh debug s refl in
        let h0 = count-checked hits query fresh debug s refl in
        let u0 = count-checked misses query fresh debug s refl in
        (shown_, same, (omega arith, omega arith, omega arith))
