-- ===== src/Config/Defaults.antt =====
-- src/config.rs: the computed defaults under validation.
use rust_whois.Prelude.{ℕ, ◌≤◌, ◌*◌, ◌≡◌, ◌≢◌, Bool, arith}
use rust_whois.Error.{ok}
use rust_whois.Config.{
  validate, default_config, calculate_max_response_size, calculate_cache_size,
  calculate_buffer_pool_size, calculate_buffer_size,
}

-- On any machine with a core, and for any port but 0, the default configuration passes validation;
-- its responses are limited to between 1 MiB and 10 MiB and hold at least one buffer, and at most 8 queries run at once.
pub default_config-validate :
    (port available_memory calculated cpu_cores : ℕ) (is_production : Bool)
    → port ≢ 0
    → cpu_cores ≢ 0
    → let c = default_config port available_memory calculated cpu_cores is_production in
      (validate c ≡ ok tt)
      × (c.buffer_size ≤ c.max_response_size)
      × (1024 * 1024 ≤ c.max_response_size)
      × (c.max_response_size ≤ 10 * 1024 * 1024)
      × (c.concurrent_whois_queries ≤ 8)
unfolding validate default_config calculate_max_response_size calculate_cache_size
    calculate_buffer_pool_size calculate_buffer_size
default_config-validate port mem calc cores prod p c = ground arith
