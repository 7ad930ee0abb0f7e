-- ===== src/Prelude/Ints.antt =====
-- `i64` values, as integers: `negsuc n` is -(n + 1).
use Prim.Native.Nat.{ℕ, zero, suc}
use mathlib.Core.Path.{◌≡◌, refl}

pub data ℤ : Type 0 where
  pos : ℕ → ℤ
  negsuc : ℕ → ℤ

unfoldable pub neg : ℤ → ℤ
neg (pos zero) = pos zero
neg (pos (suc n)) = negsuc n
neg (negsuc n) = pos (suc n)

pub neg-neg : (a : ℤ) → neg (neg a) ≡ a
unfolding neg
neg-neg (pos zero) = refl
neg-neg (pos (suc n)) = refl
neg-neg (negsuc n) = refl
