-- ===== src/Config.antt =====
-- src/config.rs: `Config`, its validation and the defaults computed from the machine. What the
-- machine and the environment report are inputs.
pub mod Validate
pub mod Defaults
pub mod Load
use rust_whois.Prelude.{
  String, ℕ, ◌*◌, ◌/◌, min, Bool, true, false, ◌||◌, Option, none, some, if◌then◌else◌, leb, ltb,
  ◌==◌,
}
use rust_whois.Text.{Str, codes, str_eq, CaseMap, to_lowercase}
use rust_whois.Error.{WhoisError, config_error, Result, ok, err}

pub record Config : Type 0 where
  pub port : ℕ
  pub whois_timeout_seconds : ℕ
  pub max_response_size : ℕ
  pub cache_ttl_seconds : ℕ
  pub negative_cache_ttl_seconds : ℕ
  pub cache_max_entries : ℕ
  pub max_referrals : ℕ
  pub discovery_timeout_seconds : ℕ
  pub concurrent_whois_queries : ℕ
  pub buffer_pool_size : ℕ
  pub buffer_size : ℕ

abbrev message : String → Result {0} Unit
message s = err (config_error (codes s))

unfoldable pub validate : Config → Result {0} Unit
validate c =
    if c.port == 0
    then message "port cannot be 0"
    else if c.whois_timeout_seconds == 0
    then message "whois_timeout_seconds cannot be 0"
    else if c.buffer_size == 0
    then message "buffer_size cannot be 0"
    else if c.buffer_pool_size == 0
    then message "buffer_pool_size cannot be 0"
    else if c.max_response_size == 0
    then message "max_response_size cannot be 0"
    else if c.concurrent_whois_queries == 0
    then message "concurrent_whois_queries cannot be 0"
    else ok tt

unfoldable pub is_production_value : CaseMap → Option Str → Bool
is_production_value m none = false
is_production_value m (some env) =
    let lower = to_lowercase m env in
    str_eq lower (codes "production") || str_eq lower (codes "prod")

-- `calculated.clamp(..)`; `calculated` is `(available_memory as f64 * 0.001) as usize`.
unfoldable pub calculate_max_response_size : (calculated : ℕ) → ℕ
calculate_max_response_size calculated =
    if ltb calculated (1024 * 1024)
    then 1024 * 1024
    else if ltb (10 * 1024 * 1024) calculated
    then 10 * 1024 * 1024
    else calculated

abbrev gigabytes : ℕ → ℕ
gigabytes available_memory = available_memory / (1024 * 1024 * 1024)

-- A `match` on `gb` with the arms `0..=2`, `3..=8`, `9..=16` and `_`.
abbrev by_gigabytes : (available_memory low medium high very_high : ℕ) → ℕ
by_gigabytes available_memory low medium high very_high =
    let gb = gigabytes available_memory in
    if leb gb 2 then low else if leb gb 8 then medium else if leb gb 16 then high else very_high

unfoldable pub calculate_cache_size : (available_memory : ℕ) → ℕ
calculate_cache_size available_memory = by_gigabytes available_memory 1000 5000 10000 25000

unfoldable pub calculate_buffer_pool_size : (available_memory : ℕ) → ℕ
calculate_buffer_pool_size available_memory = by_gigabytes available_memory 10 50 100 200

unfoldable pub calculate_buffer_size : (available_memory : ℕ) → ℕ
calculate_buffer_size available_memory = by_gigabytes available_memory 4096 8192 16384 32768

-- The settings that `load` starts from: `detect_system_capabilities` and the other defaults.
unfoldable pub default_config :
    (port available_memory calculated cpu_cores : ℕ) (is_production : Bool) → Config
unfolding calculate_max_response_size calculate_cache_size calculate_buffer_pool_size
    calculate_buffer_size
default_config port available_memory calculated cpu_cores is_production = record {
  port = port;
  whois_timeout_seconds = if is_production then 30 else 15;
  max_response_size = calculate_max_response_size calculated;
  cache_ttl_seconds = if is_production then 3600 else 1800;
  negative_cache_ttl_seconds = 300;
  cache_max_entries = calculate_cache_size available_memory;
  max_referrals = if is_production then 10 else 5;
  discovery_timeout_seconds = if is_production then 20 else 10;
  concurrent_whois_queries = min cpu_cores 8;
  buffer_pool_size = calculate_buffer_pool_size available_memory;
  buffer_size = calculate_buffer_size available_memory;
}
