-- ===== src/Server/RateLimiter.antt =====
-- src/rate_limiter.rs. The limiter of the crate governor is a parameter, with its state passed on.
use rust_whois.Prelude.{ℕ, Bool, ◌⊎◌, inl, inr, if◌then◌else◌, not, ◌==◌}
use rust_whois.Text.{Str, codes}

-- `GovernorLimiter::direct(Quota::per_hour(n))` for a non-zero `n`, and `check().is_ok()`
pub record Governor : Type 1 where
  pub Limiter : Type 0
  pub direct_per_hour : ℕ → Limiter
  pub check : Limiter → Bool × Limiter

module _ (governor : Governor) where
  open governor use {Limiter, direct_per_hour, check}

  pub record RateLimiter : Type 0 where
    pub fresh_limiter : Limiter
    pub debug_limiter : Limiter

  unfoldable pub new_limiter : RateLimiter
  new_limiter = record { fresh_limiter = direct_per_hour 1000; debug_limiter = direct_per_hour 100 }

  -- The text of a `RateLimiterConfigError`, or the limiter.
  unfoldable pub with_quotas : (fresh_per_hour debug_per_hour : ℕ) → Str ⊎ RateLimiter
  with_quotas fresh_per_hour debug_per_hour =
      if fresh_per_hour == 0
      then inl (codes "fresh_per_hour must be greater than 0")
      else if debug_per_hour == 0
      then inl (codes "debug_per_hour must be greater than 0")
      else inr (record {
        fresh_limiter = direct_per_hour fresh_per_hour;
        debug_limiter = direct_per_hour debug_per_hour;
      })

  -- True where the limit is exceeded.
  unfoldable pub check_fresh_query : RateLimiter → Bool × RateLimiter
  check_fresh_query l =
      let (within, limiter) = check l.fresh_limiter in
      (not within, record l { fresh_limiter = limiter })

  unfoldable pub check_debug_query : RateLimiter → Bool × RateLimiter
  check_debug_query l =
      let (within, limiter) = check l.debug_limiter in
      (not within, record l { debug_limiter = limiter })
