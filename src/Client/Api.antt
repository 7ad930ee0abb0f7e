-- ===== src/Client/Api.antt =====
-- src/lib.rs: `WhoisClient`, its constructors and the lookups that it offers. `made` is what
-- reqwest's builder gives, and `builder` makes moka's cache.
pub mod Built
use rust_whois.Prelude.{ℕ, Bool, true, false, Option, none, some, is_some, ◌⊎◌}
use rust_whois.Text.{Str}
use rust_whois.Error.{Result, ok, err, ◌>>=◌}
use rust_whois.Data.{WhoisResponse}
use rust_whois.Config.{Config}
use rust_whois.Cache.{Cache, CacheBackend, CacheService, Tiers}
use rust_whois.Client.Query.{DnsParser}
use rust_whois.Client.Lookup.{lookup_with_options}
use rust_whois.Client.Build.{
  Node, Means, services, new_services, CacheMode, in_process, tiered, cache_for,
}

-- The client as it is made, with what its services keep at that moment.
pub record WhoisClient (L B W : Type 0) : Type 0 where
  pub config : Config
  pub cache : Option (CacheService L B)
  pub kept : Node W

module _ {L B W : Type 0} (means : Means W) (builder : ℕ → Cache L) (made : Str ⊎ Unit {0}) where
  unfoldable pub build : Config → CacheMode B → W → Result (WhoisClient L B W)
  unfolding new_services cache_for
  build config cache_mode w = new_services means config made w >>= (λ kept.
      ok (record { config = config; cache = cache_for builder config cache_mode; kept = kept }))

  unfoldable pub new_with_config : Config → W → Result (WhoisClient L B W)
  unfolding build
  new_with_config config w = build config (in_process true) w

  unfoldable pub new_with_cache_backend : Config → CacheBackend B → W → Result (WhoisClient L B W)
  unfolding build
  new_with_cache_backend config backend w = build config (tiered backend) w

  -- `new` and `new_without_cache`. `load_config` is what `load_default_config` gives: the result of
  -- `load` in Config/Load, whose errors are made by `config_error` already.
  unfoldable pub new : (load_config : Result Config) → W → Result (WhoisClient L B W)
  unfolding new_with_config
  new load_config w = load_config >>= (λ config. new_with_config config w)

  unfoldable pub new_without_cache : (load_config : Result Config) → W → Result (WhoisClient L B W)
  unfolding build
  new_without_cache load_config w = load_config >>= (λ config. build config (in_process false) w)

unfoldable pub cache_enabled : {L B W : Type 0} → WhoisClient L B W → Bool
cache_enabled client = is_some client.cache

module _ {L B W : Type 0} (means : Means W) (parse_dns_name : DnsParser)
    (client : WhoisClient L B W) where
  -- `lookup_with_options` on the client
  abbrev pub with_options :
      Str
      → (fresh : Bool) → (query_time elapsed : ℕ) → (others : Bool) → Tiers L B (Node W)
      → Result WhoisResponse × Tiers L B (Node W)
  with_options query fresh query_time elapsed others s =
      lookup_with_options (services means client.config) client.cache means.case_map parse_dns_name
        query fresh query_time elapsed others s

  unfoldable pub lookup :
      Str
      → (query_time elapsed : ℕ) → (others : Bool) → Tiers L B (Node W)
      → Result WhoisResponse × Tiers L B (Node W)
  unfolding lookup_with_options
  lookup query query_time elapsed others s = with_options query false query_time elapsed others s

  unfoldable pub lookup_fresh :
      Str
      → (query_time elapsed : ℕ) → (others : Bool) → Tiers L B (Node W)
      → Result WhoisResponse × Tiers L B (Node W)
  unfolding lookup_with_options
  lookup_fresh query query_time elapsed others s =
      with_options query true query_time elapsed others s
