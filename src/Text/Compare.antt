-- ===== src/Text/Compare.antt =====
-- Comparison of texts, prefixes and suffixes.
use rust_whois.Prelude.{
  ℕ, ◌+◌, ◌≡◌, ◌↔◌, Bool, true, false, ◌&&◌, List, [], ◌∷◌, Option, none, some, arith, ltb, ◌==◌,
  if◌then◌else◌, code, String,
}
use mathlib.Core.Option

-- A `str` as its Unicode scalar values.
abbrev pub Str : Type 0
Str = List ℕ

abbrev pub codes : String → Str
codes String.[] = []
codes (String.◌∷◌ c s) = code c ∷ codes s

unfoldable pub str_eq : Str → Str → Bool
str_eq [] [] = true
str_eq (x ∷ a) (y ∷ b) = x == y && str_eq a b
str_eq _ _ = false

pub str_eq_iff : (a b : Str) → (str_eq a b ≡ true) ↔ (a ≡ b)
unfolding str_eq
str_eq_iff (x ∷ a) (y ∷ b) = ground (arith, str_eq_iff a b)
str_eq_iff _ _ = ground arith

-- `s.strip_prefix(p)`
unfoldable pub strip_prefix : Str → Str → Option Str
strip_prefix s [] = some s
strip_prefix [] (p ∷ ps) = none
strip_prefix (c ∷ s) (p ∷ ps) = if c == p then strip_prefix s ps else none

-- `s.starts_with(p)`
unfoldable pub starts_with : Str → Str → Bool
starts_with s [] = true
starts_with [] (p ∷ ps) = false
starts_with (c ∷ s) (p ∷ ps) = c == p && starts_with s ps

-- `s.strip_suffix(p)`
unfoldable pub strip_suffix : Str → Str → Option Str
unfolding str_eq
strip_suffix [] p = if str_eq [] p then some [] else none
strip_suffix (c ∷ s) p = if str_eq (c ∷ s) p then some [] else Option.map (◌∷◌ c) (strip_suffix s p)

-- `s.len()`: bytes of UTF-8
unfoldable pub len : Str → ℕ
len [] = 0
len (c ∷ s) =
    (if ltb c 0x80 then 1 else if ltb c 0x800 then 2 else if ltb c 0x10000 then 3 else 4) + len s
