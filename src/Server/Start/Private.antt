-- ===== src/Server/Start/Private.antt =====
-- src/main.rs: requests for a private or special address, down to the two services.
use mathlib.Core.Option.{some_inj}
use rust_whois.Prelude.{◌≡◌, refl, sym, subst, Bool, true, false, ◌||◌, some}
use rust_whois.Text.{Str, CaseMap, trim}
use rust_whois.Error.{to_string, into_response, Result, ok, err}
use rust_whois.Data.{WhoisResponse}
use rust_whois.Cache.{Tiers}
use rust_whois.Ip.{is_private_or_special}
use rust_whois.Ip.Validated
use rust_whois.Ip.Validated.{ValidatedIpAddress, refused, as_str}
use rust_whois.Ip.Normalize.{new-as_str, trim-as_str}
use rust_whois.Client.Query.{DnsParser}
use rust_whois.Client.Build.{Node, Means}
use rust_whois.Client.Build.Refused.{new_query-address, lookup_with_options-refused}
use rust_whois.Client.Api.{WhoisClient}
use rust_whois.Server.RateLimiter.{Governor}
use rust_whois.Server.Handlers.{
  Server, validate_query_with_metrics, perform_whois_lookup, performed, check_limits, whois_lookup,
  whois_lookup_post, whois_debug, whois_lookup_path, whois_debug_path,
}
use rust_whois.Server.Routes.{
  Request, get_whois, post_whois, get_debug, get_whois_path, get_debug_path, get_health,
  get_metrics, Response, error_response, whois_response, responding, Vitals, handle,
}
use rust_whois.Server.Routes.Refused.{asked}
use rust_whois.Server.Start.{Moment, asking}

-- Whether the request is for an answer past the cache, as those for debugging are.
abbrev pub is_past_cache : Request → Bool
is_past_cache (get_whois params) = params.fresh
is_past_cache (post_whois payload) = payload.fresh
is_past_cache (get_debug params) = true
is_past_cache (get_whois_path domain fresh) = fresh
is_past_cache (get_debug_path domain) = true
is_past_cache get_health = false
is_past_cache get_metrics = false

or_false : {b : Bool} → b ≡ true → (b || false) ≡ true
or_false h = rw h refl

-- A 400 with the refusal, and nothing changed in the world.
abbrev TurnedAway :
    {W : Type 0} {governor : Governor}
    → ValidatedIpAddress
    → W
    → Response × Server W governor
    → Type 0
TurnedAway ip world (response, s) =
    (response ≡ error_response (400, to_string (refused ip))) × (s.world ≡ world)

-- Any client that refuses the address.
module _ {W : Type 0} {governor : Governor} (m : CaseMap)
    (lookup : Str → Bool → W → Result WhoisResponse × W) (ip : ValidatedIpAddress)
    (s : Server W governor)
    (refuses : lookup (as_str ip) true s.world ≡ (err (refused ip), s.world)) where
  perform-TurnedAway :
      (fresh include_debug : Bool)
      → (fresh || include_debug) ≡ true
      → TurnedAway ip s.world
          (responding (perform_whois_lookup m lookup (as_str ip) fresh include_debug s))
  unfolding perform_whois_lookup check_limits whois_response into_response
  perform-TurnedAway fresh include_debug past = rw (past, refuses) (refl, refl)

  module _ (parse_dns_name : DnsParser) where
    asked-TurnedAway :
        (text query : Str) (fresh include_debug : Bool)
        → some text ≡ some query
        → Validated.new (trim query) ≡ ok ip
        → (fresh || include_debug) ≡ true
        → TurnedAway ip s.world (
            let (validated, s') = validate_query_with_metrics m lookup parse_dns_name text s in
            responding (performed m lookup parse_dns_name fresh include_debug validated s'))
    unfolding validate_query_with_metrics
    asked-TurnedAway text query fresh include_debug same valid past =
        let here = subst (λ t. Validated.new (trim t) ≡ ok ip) (sym (some_inj.0 same)) valid in
        rw (new_query-address m parse_dns_name text ip here)
          (perform-TurnedAway fresh include_debug past)

    handle-TurnedAway :
        {Handle : Type 0} (v : Vitals Handle) (request : Request) (query : Str)
        → asked request ≡ some query
        → is_past_cache request ≡ true
        → Validated.new (trim query) ≡ ok ip
        → TurnedAway ip s.world (handle m lookup parse_dns_name v request s)
    unfolding handle whois_lookup whois_lookup_post whois_debug whois_lookup_path whois_debug_path
    handle-TurnedAway v (get_whois params) query is_asked past valid =
        asked-TurnedAway params.domain query params.fresh false is_asked valid (or_false past)
    handle-TurnedAway v (post_whois payload) query is_asked past valid =
        asked-TurnedAway payload.domain query payload.fresh false is_asked valid (or_false past)
    handle-TurnedAway v (get_debug params) query is_asked past valid =
        asked-TurnedAway params.domain query true true is_asked valid refl
    handle-TurnedAway v (get_whois_path domain fresh) query is_asked past valid =
        asked-TurnedAway domain query fresh false is_asked valid (or_false past)
    handle-TurnedAway v (get_debug_path domain) query is_asked past valid =
        asked-TurnedAway domain query true true is_asked valid refl
    handle-TurnedAway v get_health query is_asked past valid = cc
    handle-TurnedAway v get_metrics query is_asked past valid = cc

module _ {L B W : Type 0} (means : Means W) (parse_dns_name : DnsParser)
    (client : WhoisClient L B W) (moment : Tiers L B (Node W) → Moment) where
  asking-refused :
      (ip : ValidatedIpAddress) (query : Str) (s : Tiers L B (Node W))
      → Validated.new query ≡ ok ip
      → is_private_or_special ip.addr ≡ true
      → asking means parse_dns_name client moment (as_str ip) true s ≡ (err (refused ip), s)
  unfolding asking
  asking-refused ip query s valid private =
      lookup_with_options-refused means client.config client.cache means.case_map parse_dns_name
        (as_str ip) ip (moment s).query_time (moment s).elapsed (moment s).others s
        (subst (λ t. Validated.new t ≡ ok ip) (sym (trim-as_str query ip valid))
          (new-as_str query ip valid))
        private

  -- A request for a private or special address, past the cache or for debugging, to a server
  -- with the client on both services: the response is a 400 with the refusal of that address, no
  -- server is asked, and neither the cache nor what the services keep changes.
  pub handle-private :
      {Handle : Type 0} {governor : Governor} (v : Vitals Handle) (request : Request) (query : Str)
      (ip : ValidatedIpAddress) (s : Server (Tiers L B (Node W)) governor)
      → asked request ≡ some query
      → is_past_cache request ≡ true
      → Validated.new (trim query) ≡ ok ip
      → is_private_or_special ip.addr ≡ true
      → let (response, s') =
          handle means.case_map
            (asking means parse_dns_name client moment)
            parse_dns_name
            v
            request
            s in
        (response ≡ error_response (400, to_string (refused ip))) × (s'.world ≡ s.world)
  handle-private v request query ip s is_asked past valid private =
      handle-TurnedAway means.case_map (asking means parse_dns_name client moment) ip s
        (asking-refused ip (trim query) s.world valid private) parse_dns_name v request query
        is_asked past valid
