-- ===== src/Text/Case.antt =====
-- Lowercasing.
use rust_whois.Prelude.{
  ℕ, ◌+◌, ◌≡◌, Bool, false, ◌&&◌, [], ◌∷◌, ◌++◌, arith, ltb, leb, if◌then◌else◌, All, All-append,
  Bool-cases, inl, inr,
}
use rust_whois.Text.Compare.{Str}

-- What `str::to_lowercase` makes of a character outside ASCII, given the text before it (nearest
-- character first) and behind it.
abbrev pub CaseMap : Type 0
CaseMap = Str → ℕ → Str → Str

-- A case map for tests on ASCII texts.
abbrev pub ascii_only : CaseMap
ascii_only before c after = c ∷ []

abbrev is_upper : ℕ → Bool
is_upper c = leb b'A' c && leb c b'Z'

-- `to_ascii_lowercase` of a character
unfoldable pub to_ascii_lowercase : ℕ → ℕ
to_ascii_lowercase c = if is_upper c then c + 32 else c

unfoldable pub lower_from : CaseMap → Str → Str → Str
unfolding to_ascii_lowercase
lower_from m before [] = []
lower_from m before (c ∷ s) =
    (if ltb c 0x80 then to_ascii_lowercase c ∷ [] else m before c s) ++ lower_from m (c ∷ before) s

-- `s.to_lowercase()`
unfoldable pub to_lowercase : CaseMap → Str → Str
unfolding lower_from
to_lowercase m s = lower_from m [] s

-- The text holds no capital letter of ASCII.
abbrev pub IsLower : Str → Type 0
IsLower = All (λ c. is_upper c ≡ false)

lowered_one-IsLower :
    (m : CaseMap)
    → ((b : Str) (c : ℕ) (a : Str) → IsLower (m b c a))
    → (before : Str) (c : ℕ) (s : Str)
    → IsLower (if ltb c 0x80 then to_ascii_lowercase c ∷ [] else m before c s)
unfolding to_ascii_lowercase
lowered_one-IsLower m h before c s = elim (Bool-cases (ltb c 0x80)) [
  | inl ascii ↦ rw ascii (ground arith, tt)
  | inr other ↦ rw other (h before c s)
]

lower_from-IsLower :
    (m : CaseMap)
    → ((b : Str) (c : ℕ) (a : Str) → IsLower (m b c a))
    → (before s : Str) → IsLower (lower_from m before s)
unfolding lower_from
lower_from-IsLower m h before [] = tt
lower_from-IsLower m h before (c ∷ s) =
    All-append (λ c. is_upper c ≡ false) _ _ (lowered_one-IsLower m h before c s)
      (lower_from-IsLower m h (c ∷ before) s)

-- A lowercased text holds no capital letter of ASCII, if no special case yields one.
pub to_lowercase-IsLower :
    (m : CaseMap)
    → ((b : Str) (c : ℕ) (a : Str) → IsLower (m b c a))
    → (s : Str) → IsLower (to_lowercase m s)
unfolding to_lowercase
to_lowercase-IsLower m h s = lower_from-IsLower m h [] s
