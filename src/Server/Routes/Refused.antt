-- ===== src/Server/Routes/Refused.antt =====
-- src/main.rs: the requests whose query is invalid.
use mathlib.Core.Option.{some_inj}
use rust_whois.Prelude.{◌≡◌, refl, sym, subst, Bool, true, false, [], ◌∷◌, Option, none, some}
use rust_whois.Text.{Str, CaseMap}
use rust_whois.Error.{
  WhoisError, invalid_domain, invalid_ip_address, into_response, to_string, Result, err,
}
use rust_whois.Data.{WhoisResponse}
use rust_whois.Client.Query.{DnsParser, new_query}
use rust_whois.Client.Query.Reasons.{IsInvalid, new_query-IsInvalid}
use rust_whois.Server.RateLimiter.{Governor}
use rust_whois.Server.Handlers.{
  Server, error_label, note, validate_query_with_metrics, whois_lookup, whois_lookup_post,
  whois_debug, whois_lookup_path, whois_debug_path, performed,
}
use rust_whois.Server.Routes.{
  Request, get_whois, post_whois, get_debug, get_whois_path, get_debug_path, get_health,
  get_metrics, error_response, whois_response, responding, Vitals, handle,
}

-- The text that a request asks for.
abbrev pub asked : Request → Option Str
asked (get_whois params) = some params.domain
asked (post_whois payload) = some payload.domain
asked (get_debug params) = some params.domain
asked (get_whois_path domain fresh) = some domain
asked (get_debug_path domain) = some domain
asked get_health = none
asked get_metrics = none

into_response-IsInvalid : (e : WhoisError) → IsInvalid e → into_response e ≡ (400, to_string e)
unfolding into_response
into_response-IsInvalid (invalid_domain s) h = refl
into_response-IsInvalid (invalid_ip_address s) h = refl
into_response-IsInvalid _ h = elim h [ ]

whois_response-refused :
    (m : CaseMap) (parse_dns_name : DnsParser) (query : Str) (e : WhoisError)
    → new_query m parse_dns_name query ≡ err e
    → whois_response (err e) ≡ error_response (400, to_string e)
unfolding whois_response
whois_response-refused m parse_dns_name query e invalid =
    rw (into_response-IsInvalid e (new_query-IsInvalid m parse_dns_name query e invalid)) refl

module _ {W : Type 0} {governor : Governor} (m : CaseMap)
    (lookup_with_options : Str → Bool → W → Result WhoisResponse × W) (parse_dns_name : DnsParser)
    (s : Server W governor) (e : WhoisError) where
  validate-refused :
      (query : Str)
      → new_query m parse_dns_name query ≡ err e
      → validate_query_with_metrics m lookup_with_options parse_dns_name query s
        ≡ (err e, note s (error_label e ∷ []))
  unfolding validate_query_with_metrics
  validate-refused query invalid = rw invalid refl

  turned_away :
      (fresh debug : Bool) (text query : Str)
      → some text ≡ some query
      → new_query m parse_dns_name query ≡ err e
      → (let (validated, s') =
            validate_query_with_metrics m lookup_with_options parse_dns_name text s in
          responding (performed m lookup_with_options parse_dns_name fresh debug validated s'))
        ≡ (error_response (400, to_string e), note s (error_label e ∷ []))
  turned_away fresh debug text query same invalid =
      let here =
        subst (λ t. new_query m parse_dns_name t ≡ err e) (sym (some_inj.0 same)) invalid in
      rw (validate-refused text here, whois_response-refused m parse_dns_name text e here) refl

  -- A request whose query is invalid gets a 400 with the reason. The client is not asked, the limits
  -- are not touched, and all that is recorded is the error.
  pub handle-refused :
      {Handle : Type 0} (v : Vitals Handle) (request : Request) (query : Str)
      → asked request ≡ some query
      → new_query m parse_dns_name query ≡ err e
      → handle m lookup_with_options parse_dns_name v request s
        ≡ (error_response (400, to_string e), note s (error_label e ∷ []))
  unfolding handle whois_lookup whois_lookup_post whois_debug whois_lookup_path whois_debug_path
  handle-refused v (get_whois params) query is_asked invalid =
      turned_away params.fresh false params.domain query is_asked invalid
  handle-refused v (post_whois params) query is_asked invalid =
      turned_away params.fresh false params.domain query is_asked invalid
  handle-refused v (get_debug params) query is_asked invalid =
      turned_away true true params.domain query is_asked invalid
  handle-refused v (get_whois_path domain fresh) query is_asked invalid =
      turned_away fresh false domain query is_asked invalid
  handle-refused v (get_debug_path domain) query is_asked invalid =
      turned_away true true domain query is_asked invalid
  handle-refused v get_health query is_asked invalid = cc
  handle-refused v get_metrics query is_asked invalid = cc
