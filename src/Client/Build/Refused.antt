-- ===== src/Client/Build/Refused.antt =====
-- src/lib.rs: `lookup_with_options` of a private address, down to the two services.
use rust_whois.Prelude.{ℕ, Bool, true, ◌≡◌, refl, Option}
use rust_whois.Text.{Str, CaseMap, trim}
use rust_whois.Error.{WhoisError, ok, err}
use rust_whois.Config.{Config}
use rust_whois.Cache.{CacheService, Tiers}
use rust_whois.Ip.{is_private_or_special}
use rust_whois.Ip.Validated
use rust_whois.Ip.Validated.{ValidatedIpAddress, detect_rir, refused, as_str}
use rust_whois.Ip.Normalize.{new-as_str}
use rust_whois.Whois.LookupIp.Enrich.{lookup_ip-refused}
use rust_whois.Rdap.Lookup as RdapLookup
use rust_whois.Client.Query.{DnsParser, new_query, ip_address}
use rust_whois.Client.Lookup.{
  lookup_with_options, lookup_internal, fetch_response, lookup_with_fallback, Services,
}
use rust_whois.Client.Build.{Node, Means, services, rdap_lookup_ip, whois_lookup_ip}

lookup_internal-refused :
    {W L B : Type 0} (both : Services W) (cache : Option (CacheService L B)) (query : Str)
    (query_time elapsed : ℕ) (others : Bool) (refusal : WhoisError) (s : Tiers L B W)
    → both.rdap_lookup_ip query s.net ≡ (err refusal, s.net)
    → both.whois_lookup_ip query s.net ≡ (err refusal, s.net)
    → lookup_internal both cache query true true query_time elapsed others s ≡ (err refusal, s)
unfolding lookup_internal fetch_response lookup_with_fallback
lookup_internal-refused both cache query query_time elapsed others refusal s rdap whois =
    rw (rdap, whois) refl

pub new_query-address :
    (m : CaseMap) (parse_dns_name : DnsParser) (query : Str) (ip : ValidatedIpAddress)
    → Validated.new (trim query) ≡ ok ip
    → new_query m parse_dns_name query ≡ ok (ip_address ip)
unfolding new_query
new_query-address m parse_dns_name query ip valid = rw (valid, new_query) refl

module _ {W : Type 0} (means : Means W) (config : Config) where
  rdap_lookup_ip-refused :
      (text : Str) (ip : ValidatedIpAddress) (node : Node W)
      → Validated.new text ≡ ok ip
      → is_private_or_special ip.addr ≡ true
      → rdap_lookup_ip means config text node ≡ (err (refused ip), node)
  unfolding rdap_lookup_ip RdapLookup.lookup_ip detect_rir
  rdap_lookup_ip-refused text ip node valid private = rw (valid, private) refl

  whois_lookup_ip-refused :
      (text : Str) (ip : ValidatedIpAddress) (node : Node W)
      → Validated.new text ≡ ok ip
      → is_private_or_special ip.addr ≡ true
      → whois_lookup_ip means config text node ≡ (err (refused ip), node)
  unfolding whois_lookup_ip
  whois_lookup_ip-refused text ip node valid private =
      rw
        (lookup_ip-refused means.case_map means.chrono (means.now node.world)
          (means.later node.world) means.whois_network config.max_referrals text ip node.world valid
          private)
        refl

  -- The query of a private or special address past the cache is refused by both services: the
  -- answer is the error that names the address, and nothing is sent and nothing changes.
  pub lookup_with_options-refused :
      {L B : Type 0} (cache : Option (CacheService L B)) (m : CaseMap) (parse_dns_name : DnsParser)
      (query : Str) (ip : ValidatedIpAddress) (query_time elapsed : ℕ) (others : Bool)
      (s : Tiers L B (Node W))
      → Validated.new (trim query) ≡ ok ip
      → is_private_or_special ip.addr ≡ true
      → lookup_with_options
          (services means config)
          cache
          m
          parse_dns_name
          query
          true
          query_time
          elapsed
          others
          s
        ≡ (err (refused ip), s)
  unfolding lookup_with_options services
  lookup_with_options-refused cache m parse_dns_name query ip query_time elapsed others s valid
        private =
      let again = new-as_str (trim query) ip valid in
      rw (new_query-address m parse_dns_name query ip valid) (
        lookup_internal-refused (services means config) cache (as_str ip) query_time elapsed others
          (refused ip) s (rdap_lookup_ip-refused (as_str ip) ip s.net again private)
          (whois_lookup_ip-refused (as_str ip) ip s.net again private))
