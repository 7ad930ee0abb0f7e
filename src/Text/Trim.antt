-- ===== src/Text/Trim.antt =====
-- White space and trimming.
use rust_whois.Prelude.{
  ℕ, ◌≡◌, refl, Bool, false, ◌&&◌, ◌||◌, [], ◌∷◌, arith, ◌==◌, leb, All, if◌then◌else◌, Bool-cases,
  inl, inr,
}
use rust_whois.Text.Compare.{Str}

-- `char::is_whitespace`, the Unicode property White_Space
unfoldable pub is_whitespace : ℕ → Bool
is_whitespace c =
    (leb 0x9 c && leb c 0xd)
    || c == 0x20
    || c == 0x85
    || c == 0xa0
    || c == 0x1680
    || (leb 0x2000 c && leb c 0x200a)
    || c == 0x2028
    || c == 0x2029
    || c == 0x202f
    || c == 0x205f
    || c == 0x3000

unfoldable pub trim_start : Str → Str
trim_start [] = []
trim_start (c ∷ s) = if is_whitespace c then trim_start s else c ∷ s

-- `c` in front of a text whose end is trimmed already
abbrev cons_unless : Bool → ℕ → Str → Str
cons_unless b c [] = if b then [] else c ∷ []
cons_unless b c (x ∷ s) = c ∷ x ∷ s

unfoldable pub trim_end : Str → Str
trim_end [] = []
trim_end (c ∷ s) = cons_unless (is_whitespace c) c (trim_end s)

unfoldable pub trim : Str → Str
unfolding trim_start trim_end
trim s = trim_end (trim_start s)

-- `s.trim_end_matches(m)`
unfoldable pub trim_end_matches : Str → ℕ → Str
trim_end_matches [] m = []
trim_end_matches (c ∷ s) m = cons_unless (c == m) c (trim_end_matches s m)

word : Str → Str
word [] = []
word (c ∷ s) = if is_whitespace c then [] else c ∷ word s

-- `s.split_whitespace().next().unwrap_or(s)`
unfoldable pub first_word : Str → Str
unfolding word trim_start
first_word s = elim (trim_start s) [ [] ↦ s | c ∷ t ↦ word (c ∷ t) ]

-- The last character, if there is one, satisfies `b` not.
abbrev pub EndsNot : (ℕ → Bool) → Str → Type 0
EndsNot b [] = Unit
EndsNot b (c ∷ []) = b c ≡ false
EndsNot b (c ∷ d ∷ s) = EndsNot b (d ∷ s)

abbrev StartsNot : (ℕ → Bool) → Str → Type 0
StartsNot b [] = Unit
StartsNot b (c ∷ s) = b c ≡ false

-- No white space at either end.
abbrev pub NoEdge : Str → Type 0
NoEdge s = StartsNot is_whitespace s × EndsNot is_whitespace s

cons_unless-EndsNot :
    (b : ℕ → Bool) (c : ℕ) (s : Str) → EndsNot b s → EndsNot b (cons_unless (b c) c s)
cons_unless-EndsNot b c [] h = ground arith
cons_unless-EndsNot b c (x ∷ s) h = h

trim_end-EndsNot : (s : Str) → EndsNot is_whitespace (trim_end s)
unfolding trim_end
trim_end-EndsNot [] = tt
trim_end-EndsNot (c ∷ s) = cons_unless-EndsNot is_whitespace c (trim_end s) (trim_end-EndsNot s)

-- Trimming the dots off leaves a text that does not end in one.
pub trim_end_matches_lem : (s : Str) (m : ℕ) → EndsNot (λ c. c == m) (trim_end_matches s m)
unfolding trim_end_matches
trim_end_matches_lem [] m = tt
trim_end_matches_lem (c ∷ s) m =
    cons_unless-EndsNot (λ c. c == m) c (trim_end_matches s m) (trim_end_matches_lem s m)

trim_start-StartsNot : (s : Str) → StartsNot is_whitespace (trim_start s)
unfolding trim_start
trim_start-StartsNot [] = tt
trim_start-StartsNot (c ∷ s) = elim (Bool-cases (is_whitespace c)) [
  | inl e ↦ rw e (trim_start-StartsNot s)
  | inr e ↦ rw e e
]

cons_unless_ne : (b : Bool) (c : ℕ) (s : Str) → b ≡ false → cons_unless b c s ≡ c ∷ s
cons_unless_ne b c [] h = rw h
cons_unless_ne b c (x ∷ s) h = refl

trim_end-StartsNot : (s : Str) → StartsNot is_whitespace s → StartsNot is_whitespace (trim_end s)
unfolding trim_end
trim_end-StartsNot [] h = tt
trim_end-StartsNot (c ∷ s) h = rw (cons_unless_ne (is_whitespace c) c (trim_end s) h) h

pub trim-NoEdge : (s : Str) → NoEdge (trim s)
unfolding trim
trim-NoEdge s =
    (trim_end-StartsNot (trim_start s) (trim_start-StartsNot s), trim_end-EndsNot (trim_start s))

trim_start_of_StartsNot : (s : Str) → StartsNot is_whitespace s → trim_start s ≡ s
unfolding trim_start
trim_start_of_StartsNot [] h = refl
trim_start_of_StartsNot (c ∷ s) h = rw h

trim_end_of_EndsNot : (s : Str) → EndsNot is_whitespace s → trim_end s ≡ s
unfolding trim_end
trim_end_of_EndsNot [] h = refl
trim_end_of_EndsNot (c ∷ []) h = rw h
trim_end_of_EndsNot (c ∷ d ∷ s) h = rw (trim_end_of_EndsNot (d ∷ s) h, trim_end)

-- Trimming a text with no white space at its ends changes nothing.
pub trim_of_NoEdge : (s : Str) → NoEdge s → trim s ≡ s
unfolding trim
trim_of_NoEdge s (a, b) = rw (trim_start_of_StartsNot s a) (trim_end_of_EndsNot s b)

-- No white space anywhere.
abbrev pub NoSpace : Str → Type 0
NoSpace = All (λ c. is_whitespace c ≡ false)

NoSpace-EndsNot : (s : Str) → NoSpace s → EndsNot is_whitespace s
NoSpace-EndsNot [] h = tt
NoSpace-EndsNot (c ∷ []) h = h.0
NoSpace-EndsNot (c ∷ d ∷ s) h = NoSpace-EndsNot (d ∷ s) h.1

NoSpace-StartsNot : (s : Str) → NoSpace s → StartsNot is_whitespace s
NoSpace-StartsNot [] h = tt
NoSpace-StartsNot (c ∷ s) h = h.0

pub trim_of_NoSpace : (s : Str) → NoSpace s → trim s ≡ s
trim_of_NoSpace s h = trim_of_NoEdge s (NoSpace-StartsNot s h, NoSpace-EndsNot s h)
