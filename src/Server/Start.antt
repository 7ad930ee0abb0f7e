-- ===== src/Server/Start.antt =====
-- src/main.rs: `build_client`, and `main` up to the state that it serves requests with. Logging and
-- the socket are left out.
pub mod Private
use rust_whois.Prelude.{ℕ, Bool, true, false, Option, none, some, ◌⊎◌, if◌then◌else◌}
use rust_whois.Text.{Str}
use rust_whois.Error.{Result, ok, err, ◌>>=◌}
use rust_whois.Data.{WhoisResponse}
use rust_whois.Config.{Config}
use rust_whois.Cache.{Cache, CacheBackend, Tiers}
use rust_whois.Client.Query.{DnsParser}
use rust_whois.Client.Build.{Node, Means}
use rust_whois.Client.Lookup.{lookup_with_options}
use rust_whois.Client.Api.{WhoisClient, new_with_config, new_with_cache_backend, with_options}
use rust_whois.Server.Metrics.{HandleLock, init_metrics}
use rust_whois.Server.RateLimiter.{Governor, new_limiter}
use rust_whois.Server.Handlers.{Server}

-- What the process is started with: whether the Redis backend is built in, the variable `REDIS_URL`
-- and `RedisCache::new`; the exporter of the metrics, and the tiers of the cache as they are then.
pub record Launch (L B Handle : Type 0) : Type 0 where
  pub redis_feature : Bool
  pub redis_url : Option Str
  pub open_redis : Str → Result (CacheBackend B)
  pub exporter : Str ⊎ Handle
  pub handle_lock : HandleLock Handle
  pub local : L
  pub shared : B

module _ {L B W Handle : Type 0} (means : Means W) (builder : ℕ → Cache L) (made : Str ⊎ Unit {0})
    (launch : Launch L B Handle) where
  abbrev with_backend : Config → W → Result (CacheBackend B) → Result (WhoisClient L B W)
  with_backend config w (ok backend) = new_with_cache_backend means builder made config backend w
  with_backend config w (err e) = err e

  unfoldable pub build_client : Config → W → Result (WhoisClient L B W)
  unfolding new_with_config new_with_cache_backend
  build_client config w =
      if launch.redis_feature
      then elim launch.redis_url [
        | some url ↦ with_backend config w (launch.open_redis url)
        | none ↦ new_with_config means builder made config w
      ]
      else new_with_config means builder made config w

  -- The state of a server whose client this is.
  unfoldable pub app_state :
      (governor : Governor) → WhoisClient L B W → Server (Tiers L B (Node W)) governor
  unfolding new_limiter init_metrics
  app_state governor client = record {
    world = record { local = launch.local; shared = launch.shared; net = client.kept };
    rate_limiter = new_limiter governor;
    recorded = (init_metrics launch.exporter launch.handle_lock).1;
  }

  -- `main`, up to the state
  unfoldable pub start :
      (governor : Governor)
      → (load_config : Result Config) → W
      → Result (WhoisClient L B W × Server (Tiers L B (Node W)) governor)
  unfolding build_client app_state
  start governor load_config w =
      load_config
      >>= (λ config. build_client config w)
      >>= (λ client. ok (client, app_state governor client))

-- The two readings of the time that a request takes, and whether another caller waits for its key.
pub record Moment : Type 0 where
  pub query_time : ℕ
  pub elapsed : ℕ
  pub others : Bool

-- The client as the handlers call it.
unfoldable pub asking :
    {L B W : Type 0}
    → Means W
    → DnsParser
    → WhoisClient L B W
    → (Tiers L B (Node W) → Moment)
    → Str
    → Bool
    → Tiers L B (Node W)
    → Result WhoisResponse × Tiers L B (Node W)
unfolding lookup_with_options
asking means parse_dns_name client moment query fresh s =
    let t = moment s in
    with_options means parse_dns_name client query fresh t.query_time t.elapsed t.others s
