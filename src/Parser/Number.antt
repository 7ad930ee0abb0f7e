-- ===== src/Parser/Number.antt =====
-- `Display` of `usize`: decimal digits.
use rust_whois.Prelude.{ℕ, zero, suc, ◌+◌, ◌/◌, ◌%◌, [], ◌∷◌, true, false, ltb}
use rust_whois.Text.{Str}

-- The digits of `n` in front of `acc`; each round uses one unit of fuel and drops one digit.
digits_onto : ℕ → ℕ → Str → Str
digits_onto zero n acc = acc
digits_onto (suc fuel) n acc = elim (ltb n 10) [
  | true ↦ (b'0' + n) ∷ acc
  | false ↦ digits_onto fuel (n / 10) ((b'0' + n % 10) ∷ acc)
]

-- `n + 1` rounds are enough, since every round but the last divides by ten.
unfoldable pub show_nat : ℕ → Str
unfolding digits_onto
show_nat n = digits_onto (n + 1) n []
