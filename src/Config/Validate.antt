-- ===== src/Config/Validate.antt =====
-- src/config.rs: what `validate` accepts.
use rust_whois.Prelude.{◌≡◌, ◌≢◌, ◌↔◌, arith}
use rust_whois.Error.{ok}
use rust_whois.Config.{Config, validate}

abbrev pub Usable : Config → Type 0
Usable c =
    (c.port ≢ 0)
    × (c.whois_timeout_seconds ≢ 0)
    × (c.buffer_size ≢ 0)
    × (c.buffer_pool_size ≢ 0)
    × (c.max_response_size ≢ 0)
    × (c.concurrent_whois_queries ≢ 0)

-- Validation accepts exactly the configurations whose port, timeout, buffer and pool sizes,
-- response limit and number of queries are all positive.
pub validate_iff : (c : Config) → (validate c ≡ ok tt) ↔ Usable c
unfolding validate
validate_iff c = ground arith
