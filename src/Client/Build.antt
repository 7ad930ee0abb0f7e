-- ===== src/Client/Build.antt =====
-- src/lib.rs, src/whois.rs and src/rdap.rs: the two services with what they keep, behind the
-- interface of the client, and its constructors. The constructor of reqwest's client and the one of
-- moka's cache are parameters.
pub mod Refused
use rust_whois.Prelude.{ℕ, Bool, true, false, List, [], Option, none, some, ◌⊎◌, inl, inr}
use rust_whois.Text.{Str, CaseMap, codes}
use rust_whois.Error.{WhoisError, http_error, Result, ok, err, ◌>>=◌}
use rust_whois.Data.{LookupResult, ParsedWhoisData}
use rust_whois.Config.{Config, validate}
use rust_whois.Dates.{Chrono, Clock}
use rust_whois.Tld.{Psl}
use rust_whois.Cache.{Cache, CacheBackend, CacheService}
use rust_whois.Retry.{Retry}
use rust_whois.Whois.Servers.{Servers}
use rust_whois.Whois.Registry.{Network, State}
use rust_whois.Whois.Lookup
use rust_whois.Whois.LookupIp
use rust_whois.Rdap.Json.{Value}
use rust_whois.Rdap.Domain.{RdapDomainResponse, parse_rdap_response}
use rust_whois.Rdap.Query.{Http}
use rust_whois.Rdap.Bootstrap.{Readings, Service, Outcome, returns, panics, initial}
use rust_whois.Rdap.Discovery.{RdapBootstrap}
use rust_whois.Rdap.Discovery.Cached.{IsCurrent}
use rust_whois.Rdap.Lookup as RdapLookup
use rust_whois.Rdap.Lookup.Answered.{Reports, lookup-LookedUp}
use rust_whois.Client.Lookup.{Services}

-- What the two services keep, and the world. The servers that the RDAP service keeps are those that
-- its bootstrap data names.
pub record Node (W : Type 0) : Type 0 where
  pub rdap : Service RdapBootstrap
  pub rdap_current : IsCurrent rdap
  pub whois_servers : Servers
  pub world : W

-- All that the services use.
pub record Means (W : Type 0) : Type 1 where
  pub case_map : CaseMap
  pub chrono : Chrono
  pub psl : Psl
  pub http : Http W
  pub retry : Retry
  pub whois_network : Network W
  pub domain_json : Str → Str ⊎ RdapDomainResponse
  pub network_json : Str → Str ⊎ Value
  pub fetch_bootstrap : W → Result RdapBootstrap × W
  -- the clock at an access to the bootstrap data, and at the two parses of a lookup
  pub readings : W → Readings
  pub now : W → Clock chrono
  pub later : W → Clock chrono

-- A lookup that reports does not panic.
abbrev pub reported_value :
    (psl : Psl) (parse : Str → Option ParsedWhoisData × List Str) (domain : Str)
    (content : Option RdapBootstrap) (answer : Outcome (Result LookupResult))
    → Reports psl parse domain content answer
    → Result LookupResult
reported_value psl parse domain content panics reports = elim reports [ ]
reported_value psl parse domain content (returns answer) reports = answer

module _ {W : Type 0} (means : Means W) (config : Config) where
  open means use {
    case_map, chrono, psl, http, retry, whois_network, domain_json, network_json, fetch_bootstrap,
    readings, now, later,
  }

  unfoldable pub rdap_lookup : Str → Node W → Result LookupResult × Node W
  rdap_lookup domain node =
      let w = node.world in
      let ((answer, rdap), w') =
        RdapLookup.lookup http retry config.max_response_size chrono (now w) psl domain_json
          fetch_bootstrap (readings w) domain node.rdap w in
      let (reports, current) =
        lookup-LookedUp http retry config.max_response_size chrono (now w) psl domain_json
          fetch_bootstrap (readings w) domain node.rdap w node.rdap_current in
      (
        reported_value psl (parse_rdap_response domain_json chrono (now w)) domain
            rdap.bootstrap.content answer reports,
        record node { rdap = rdap; rdap_current = current; world = w' },
      )

  unfoldable pub rdap_lookup_ip : Str → Node W → Result LookupResult × Node W
  unfolding RdapLookup.lookup_ip
  rdap_lookup_ip ip node =
      let (answer, w) =
        RdapLookup.lookup_ip http retry config.max_response_size chrono (now node.world)
          network_json ip node.world in
      (answer, record node { world = w })

  unfoldable pub whois_lookup : Str → Node W → Result LookupResult × Node W
  unfolding Lookup.lookup
  whois_lookup domain node =
      let w = node.world in
      let (answer, s) =
        Lookup.lookup case_map chrono whois_network psl config.max_referrals (now w) (later w)
          domain (record { tld_servers = node.whois_servers; world = w }) in
      (answer, record node { whois_servers = s.tld_servers; world = s.world })

  unfoldable pub whois_lookup_ip : Str → Node W → Result LookupResult × Node W
  unfolding LookupIp.lookup_ip
  whois_lookup_ip ip node =
      let (answer, w) =
        LookupIp.lookup_ip case_map chrono whois_network config.max_referrals (now node.world)
          (later node.world) ip node.world in
      (answer, record node { world = w })

  -- The services of the client.
  unfoldable pub services : Services (Node W)
  unfolding rdap_lookup rdap_lookup_ip whois_lookup whois_lookup_ip
  services = record {
    rdap_lookup = rdap_lookup;
    rdap_lookup_ip = rdap_lookup_ip;
    whois_lookup = whois_lookup;
    whois_lookup_ip = whois_lookup_ip;
  }

  -- `WhoisService::new` and `RdapService::new`, with what they keep; `client` is what reqwest's
  -- builder gives, or the text of its error.
  unfoldable pub new_services : (client : Str ⊎ Unit {0}) → W → Result (Node W)
  unfolding validate
  new_services client w =
      validate config >>= (λ checked. validate config >>= (λ again. with_client client))
    where
      with_client : Str ⊎ Unit {0} → Result (Node W)
      with_client (inl e) = err (http_error e)
      with_client (inr made) =
          ok (record { rdap = initial; rdap_current = tt; whois_servers = []; world = w })

-- `CacheService::build`; `builder` is moka's, with the capacity and the expiry of the entries.
unfoldable pub build_cache :
    {L B : Type 0} → (builder : ℕ → Cache L) → Config → Option (CacheBackend B) → CacheService L B
build_cache builder config backend = record {
  cache = builder config.cache_max_entries;
  backend = backend;
  positive_ttl = config.cache_ttl_seconds;
  negative_ttl = config.negative_cache_ttl_seconds;
}

pub data CacheMode (B : Type 0) : Type 0 where
  in_process : (enabled : Bool) → CacheMode B
  tiered : CacheBackend B → CacheMode B

-- The `match` on the mode in `WhoisClient::build`
unfoldable pub cache_for :
    {L B : Type 0} → (builder : ℕ → Cache L) → Config → CacheMode B → Option (CacheService L B)
unfolding build_cache
cache_for builder config (in_process false) = none
cache_for builder config (in_process true) = some (build_cache builder config none)
cache_for builder config (tiered backend) = some (build_cache builder config (some backend))
