-- ===== src/Retry.antt =====
-- The crate backon, as src/whois.rs and src/rdap.rs use it: an operation that is run again while it
-- fails with an error that passes a test. The pauses in between are left out.
use rust_whois.Prelude.{ℕ, zero, suc, ◌≡◌, Bool, true, false}
use rust_whois.Error.{WhoisError, Result, ok, err}

-- `.when(..)` on a result
abbrev pub again_on {ℓ} : {A : Type ℓ} → (WhoisError → Bool) → Result A → Bool
again_on when (ok a) = false
again_on when (err e) = when e

-- The runs of an operation from a world to a final result, with at most `n` of them to follow the
-- first: each run but the last failed with an error to be retried, and the last did not, or was
-- the last one allowed.
pub data Runs {A W : Type 0} (when : WhoisError → Bool) (op : W → Result A × W)
    : ℕ → W → Result A × W → Type 0 where
  last : (w : W) → Runs when op zero w (op w)
  done : {n : ℕ} (w : W) → again_on when (op w).0 ≡ false → Runs when op (suc n) w (op w)
  again :
      {n : ℕ} {out : Result A × W} (w : W)
      → again_on when (op w).0 ≡ true
      → Runs when op n (op w).1 out
      → Runs when op (suc n) w out

-- `op.retry(ExponentialBuilder::default().with_max_times(times)).when(..)`, and what it documents.
pub record Retry : Type 1 where
  pub retry :
      {A W : Type 0} → (WhoisError → Bool) → (times : ℕ) → (W → Result A × W) → W → Result A × W
  pub retry-Runs :
      {A W : Type 0} (when : WhoisError → Bool) (times : ℕ) (op : W → Result A × W) (w : W)
      → Runs when op times w (retry when times op w)
