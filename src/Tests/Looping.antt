-- ===== src/Tests/Looping.antt =====
-- A retry without pauses, for the examples.
use rust_whois.Prelude.{ℕ, zero, suc, ◌≡◌, refl, Bool, true, false, if◌then◌else◌}
use rust_whois.Error.{WhoisError, Result}
use rust_whois.Retry.{Retry, Runs, last, done, again, again_on}

abbrev tries : {A W : Type 0} → (WhoisError → Bool) → ℕ → (W → Result A × W) → W → Result A × W
tries when zero op w = op w
tries when (suc n) op w =
    let later = tries when n op (op w).1 in if again_on when (op w).0 then later else op w

pub tries-Runs :
    {A W : Type 0} (when : WhoisError → Bool) (times : ℕ) (op : W → Result A × W) (w : W)
    → Runs when op times w (tries when times op w)
tries-Runs when zero op w = last w
tries-Runs {A} {W} when (suc n) op w =
    go (tries-Runs when n op (op w).1) (again_on when (op w).0) refl
  where
    go :
        Runs when op n (op w).1 (tries when n op (op w).1)
        → (failed : Bool) → again_on when (op w).0 ≡ failed
        → Runs when op (suc n) w (if failed then tries when n op (op w).1 else op w)
    go later true e = again w e later
    go later false e = done w e

abbrev pub retry_loop : Retry
retry_loop = record { retry = tries; retry-Runs = tries-Runs }
