-- ===== src/Config/Load.antt =====
-- src/config.rs: `Config::load` and what it reads of the machine and the environment. The builder of
-- the crate config is a parameter, an error of its text; so is the product with 0.001, which is of
-- floating-point numbers.
pub mod Overrides
use rust_whois.Prelude.{
  ℕ, ◌+◌, ◌*◌, ◌-◌, ◌%◌, ◌^◌, Bool, true, false, ◌&&◌, ◌||◌, List, [], ◌∷◌, ◌++◌, Option, none,
  some, ◌⊎◌, inl, inr, if◌then◌else◌, leb, ltb, or_else, ◌==◌,
}
use rust_whois.Text.{Str, CaseMap, codes, starts_with, lines, is_whitespace}
use rust_whois.Error.{WhoisError, config_error, Result, ok, err, ◌>>=◌}
use rust_whois.Config.{Config, validate, is_production_value, default_config}

-- `std::env::var(..).ok()`
abbrev pub Env : Type 0
Env = Str → Option Str

-- A round of `parse` on an unsigned type of `bits` bits, after the value of some digits.
abbrev push_digit : (bits : ℕ) → Option ℕ → ℕ → Option ℕ
push_digit bits none c = none
push_digit bits (some n) c =
    let next = n * 10 + (c - b'0') in
    if leb b'0' c && leb c b'9' && ltb next (2 ^ bits) then some next else none

unfoldable pub parse_digits : (bits : ℕ) → Option ℕ → Str → Option ℕ
parse_digits bits n [] = n
parse_digits bits n (c ∷ s) = parse_digits bits (push_digit bits n c) s

-- `s.parse::<uN>().ok()`: digits, with a plus sign before them or without.
unfoldable pub parse_unsigned : (bits : ℕ) → Str → Option ℕ
unfolding parse_digits
parse_unsigned bits [] = none
parse_unsigned bits (c ∷ []) = parse_digits bits (some 0) (c ∷ [])
parse_unsigned bits (c ∷ d ∷ s) =
    parse_digits bits (some 0) (if c == b'+' then d ∷ s else c ∷ d ∷ s)

-- The words of a line, between white space.
unfoldable pub split_whitespace : Str → List Str
unfolding is_whitespace
split_whitespace [] = []
split_whitespace (c ∷ s) =
    let rest = split_whitespace s in if is_whitespace c then rest else first_letter c s rest
  where
    onto : ℕ → List Str → List Str
    onto c [] = (c ∷ []) ∷ []
    onto c (w ∷ ws) = (c ∷ w) ∷ ws

    first_letter : ℕ → Str → List Str → List Str
    first_letter c [] rest = (c ∷ []) ∷ rest
    first_letter c (d ∷ s) rest = if is_whitespace d then (c ∷ []) ∷ rest else onto c rest

-- The product wraps, as in a release build.
abbrev bytes_of : Option ℕ → Option ℕ
bytes_of none = none
bytes_of (some kb_val) = some (kb_val * 1024 % 2 ^ 64)

-- `.nth(1)`, and its `parse`
abbrev second_number : List Str → Option ℕ
second_number (w ∷ v ∷ ws) = bytes_of (parse_unsigned 64 v)
second_number _ = none

abbrev memory_of : Str → Option ℕ
memory_of line =
    if starts_with line (codes "MemAvailable:") then second_number (split_whitespace line) else none

-- The loop over the lines.
unfoldable pub memory_in : List Str → Option ℕ
unfolding parse_unsigned split_whitespace starts_with
memory_in [] = none
memory_in (line ∷ rest) = or_else (memory_of line) (memory_in rest)

abbrev or_default : Option ℕ → ℕ → ℕ
or_default none d = d
or_default (some n) d = n

-- On Linux; the argument is what `/proc/meminfo` holds where it can be read.
unfoldable pub get_available_memory : Option Str → ℕ
unfolding memory_in lines
get_available_memory none = 4 * 1024 * 1024 * 1024
get_available_memory (some meminfo) =
    or_default (memory_in (lines meminfo)) (4 * 1024 * 1024 * 1024)

unfoldable pub get_cpu_cores : (available_parallelism : Option ℕ) → ℕ
get_cpu_cores available_parallelism = or_default available_parallelism 4

abbrev port_of : Option Str → ℕ
port_of none = 3000
port_of (some p) = or_default (parse_unsigned 16 p) 3000

unfoldable pub get_default_port : Env → ℕ
unfolding parse_unsigned
get_default_port var =
    port_of
      (or_else (var (codes "PORT")) (or_else (var (codes "HTTP_PORT")) (var (codes "SERVER_PORT"))))

unfoldable pub is_production_environment : CaseMap → Env → Bool
unfolding is_production_value
is_production_environment m var =
    is_production_value m (or_else (var (codes "ENVIRONMENT")) (var (codes "ENV")))

unfoldable pub env_mappings : List (Str × Str)
env_mappings =
    (codes "PORT", codes "port")
    ∷ (codes "WHOIS_TIMEOUT_SECONDS", codes "whois_timeout_seconds")
    ∷ (codes "WHOIS_TIMEOUT", codes "whois_timeout_seconds")
    ∷ (codes "MAX_RESPONSE_SIZE", codes "max_response_size")
    ∷ (codes "CACHE_TTL_SECONDS", codes "cache_ttl_seconds")
    ∷ (codes "CACHE_TTL", codes "cache_ttl_seconds")
    ∷ (codes "NEGATIVE_CACHE_TTL_SECONDS", codes "negative_cache_ttl_seconds")
    ∷ (codes "NEGATIVE_CACHE_TTL", codes "negative_cache_ttl_seconds")
    ∷ (codes "CACHE_MAX_ENTRIES", codes "cache_max_entries")
    ∷ (codes "CACHE_SIZE", codes "cache_max_entries")
    ∷ (codes "MAX_REFERRALS", codes "max_referrals")
    ∷ (codes "DISCOVERY_TIMEOUT_SECONDS", codes "discovery_timeout_seconds")
    ∷ (codes "DISCOVERY_TIMEOUT", codes "discovery_timeout_seconds")
    ∷ (codes "CONCURRENT_WHOIS_QUERIES", codes "concurrent_whois_queries")
    ∷ (codes "BUFFER_POOL_SIZE", codes "buffer_pool_size")
    ∷ (codes "BUFFER_SIZE", codes "buffer_size")
    ∷ []

-- `ConfigBuilder`; `build` is `build()?.try_deserialize()`.
pub record Builder : Type 1 where
  pub Settings : Type 0
  pub builder : Settings
  pub set_default : Str → ℕ → Settings → Result Settings
  pub set_override : Str → Str → Settings → Result Settings
  pub build : Settings → Result Config

module _ (b : Builder) where
  open b use {Settings, builder, set_default, set_override, build}

  abbrev pub override_with : Str → Option Str → Settings → Result Settings
  override_with config_key none settings = ok settings
  override_with config_key (some value) settings = set_override config_key value settings

  -- The loop over the mappings.
  unfoldable pub apply_mappings : List (Str × Str) → Env → Settings → Result Settings
  apply_mappings [] var settings = ok settings
  apply_mappings ((env_var, config_key) ∷ mappings) var settings =
      override_with config_key (var env_var) settings >>= apply_mappings mappings var

  unfoldable pub apply_env_overrides : Env → Settings → Result Settings
  unfolding apply_mappings env_mappings
  apply_env_overrides var settings = apply_mappings env_mappings var settings

  unfoldable pub with_defaults : Config → Result Settings
  with_defaults c =
      set_default (codes "port") c.port builder
      >>= set_default (codes "whois_timeout_seconds") c.whois_timeout_seconds
      >>= set_default (codes "max_response_size") c.max_response_size
      >>= set_default (codes "cache_ttl_seconds") c.cache_ttl_seconds
      >>= set_default (codes "negative_cache_ttl_seconds") c.negative_cache_ttl_seconds
      >>= set_default (codes "cache_max_entries") c.cache_max_entries
      >>= set_default (codes "max_referrals") c.max_referrals
      >>= set_default (codes "discovery_timeout_seconds") c.discovery_timeout_seconds
      >>= set_default (codes "concurrent_whois_queries") c.concurrent_whois_queries
      >>= set_default (codes "buffer_pool_size") c.buffer_pool_size
      >>= set_default (codes "buffer_size") c.buffer_size

  abbrev validated : Config → Result Config
  validated config = validate config >>= (λ done. ok config)

  unfoldable pub load :
      CaseMap
      → Env
      → (meminfo : Option Str) → (available_parallelism : Option ℕ) → (tenth_of_a_percent : ℕ → ℕ)
      → Result Config
  unfolding get_default_port get_available_memory get_cpu_cores is_production_environment
      default_config with_defaults apply_env_overrides validate
  load m var meminfo available_parallelism tenth_of_a_percent =
      let available_memory = get_available_memory meminfo in
      with_defaults (
        default_config (get_default_port var) available_memory (tenth_of_a_percent available_memory)
          (get_cpu_cores available_parallelism) (is_production_environment m var))
      >>= apply_env_overrides var
      >>= build
      >>= validated
