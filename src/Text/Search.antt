-- ===== src/Text/Search.antt =====
-- Searching and splitting texts.
use mathlib.Core.Option
use rust_whois.Prelude.{
  ℕ, ◌≡◌, ◌≢◌, refl, ap, ◌↔◌, inl, inr, Bool, true, false, ◌||◌, List, [], ◌∷◌, ◌++◌, Option, none,
  some, arith, ◌==◌, if◌then◌else◌, any, All, All-append, Bool-cases, Option-cases,
}
use rust_whois.Text.Compare.{Str, str_eq, starts_with}

-- `s.contains(p)` for a text
unfoldable pub contains : Str → Str → Bool
unfolding starts_with
contains [] p = starts_with [] p
contains (c ∷ s) p = starts_with (c ∷ s) p || contains s p

-- `p` stands somewhere in `s`.
abbrev pub Infix : Str → Str → Type 0
Infix p s = (before : Str) × (after : Str) × (s ≡ before ++ (p ++ after))

starts_with_sound : (s p : Str) → starts_with s p ≡ true → (after : Str) × (s ≡ p ++ after)
unfolding starts_with
starts_with_sound s [] h = (s, refl)
starts_with_sound [] (p ∷ ps) h = cc
starts_with_sound (c ∷ s) (p ∷ ps) h =
    let (after, e) = starts_with_sound s ps (ground arith) in (after, ground arith)

starts_with-append : (p after : Str) → starts_with (p ++ after) p ≡ true
unfolding starts_with
starts_with-append [] [] = refl
starts_with-append [] (c ∷ after) = refl
starts_with-append (p ∷ ps) after = ground (arith, starts_with-append ps after)

contains_sound : (s p : Str) → contains s p ≡ true → Infix p s
unfolding contains
contains_sound [] p h = let (after, e) = starts_with_sound [] p h in ([], after, e)
contains_sound (c ∷ s) p h = elim (Bool-cases (starts_with (c ∷ s) p)) [
  | inl here ↦ let (after, e) = starts_with_sound (c ∷ s) p here in ([], after, e)
  | inr later ↦
      let (before, after, e) = contains_sound s p (ground arith) in
      (c ∷ before, after, ap (◌∷◌ c) e)
]

contains-append : (before p after : Str) → contains (before ++ (p ++ after)) p ≡ true
unfolding contains
contains-append [] [] [] = starts_with-append [] []
contains-append [] [] (c ∷ after) = ground (arith, starts_with-append [] (c ∷ after))
contains-append [] (p ∷ ps) after = ground (arith, starts_with-append (p ∷ ps) after)
contains-append (c ∷ before) p after = ground (arith, contains-append before p after)

pub contains_iff : (s p : Str) → (contains s p ≡ true) ↔ Infix p s
contains_iff s p = (contains_sound s p, λ (before, after, e). rw e (contains-append before p after))

-- `s.contains(c)` for a character
unfoldable pub contains_char : Str → ℕ → Bool
contains_char s c = any (λ x. x == c) s

-- `s.contains([c, ...])`
unfoldable pub contains_any : Str → List ℕ → Bool
contains_any s cs = any (λ x. any (λ c. x == c) cs) s

-- No character of the text is `c`.
abbrev pub HasNo : ℕ → Str → Type 0
HasNo c = All (λ x. x ≢ c)

pub contains_char_iff : (s : Str) (c : ℕ) → (contains_char s c ≡ false) ↔ HasNo c s
unfolding contains_char
contains_char_iff [] c = (λ _. tt, λ _. refl)
contains_char_iff (x ∷ s) c = ground (arith, contains_char_iff s c)

pub HasNo-append : (c : ℕ) (s t : Str) → HasNo c s → HasNo c t → HasNo c (s ++ t)
HasNo-append c s t = All-append (λ x. x ≢ c) s t

-- `s.split_once(c)`
unfoldable pub split_once : Str → ℕ → Option (Str × Str)
split_once [] c = none
split_once (x ∷ s) c =
    if x == c then some ([], s) else Option.map (λ (a, b). (x ∷ a, b)) (split_once s c)

pub split_once-eq_some :
    (s : Str) (c : ℕ) (a b : Str) → split_once s c ≡ some (a, b) → (s ≡ a ++ (c ∷ b)) × HasNo c a
unfolding split_once
split_once-eq_some [] c a b h = cc
split_once-eq_some (x ∷ s) c a b h = elim (Bool-cases (x == c)) [
  | inl here ↦ ground arith
  | inr later ↦ elim (Option-cases (split_once s c)) [
    | inl missing ↦ ground arith
    | inr ((a', b'), found) ↦
        let (e, k) = split_once-eq_some s c a' b' found in ground (arith, found)
  ]
]

abbrev extend : ℕ → List Str → List Str
extend x [] = (x ∷ []) ∷ []
extend x (p ∷ ps) = (x ∷ p) ∷ ps

HasNo-extend : (x c : ℕ) (ps : List Str) → x ≢ c → All (HasNo c) ps → All (HasNo c) (extend x ps)
HasNo-extend x c [] ne h = ((ne, tt), tt)
HasNo-extend x c (p ∷ ps) ne (h, hs) = ((ne, h), hs)

-- `s.split(c)`
unfoldable pub split : Str → ℕ → List Str
split [] c = [] ∷ []
split (x ∷ s) c = let rest = split s c in if x == c then [] ∷ rest else extend x rest

pub HasNo-split : (s : Str) (c : ℕ) → All (HasNo c) (split s c)
unfolding split
HasNo-split [] c = (tt, tt)
HasNo-split (x ∷ s) c = elim (Bool-cases (x == c)) [
  | inl here ↦ rw here (tt, HasNo-split s c)
  | inr other ↦ rw other (HasNo-extend x c (split s c) (ground arith) (HasNo-split s c))
]

-- The last item of a list, as `next_back` gives it.
unfoldable pub last {ℓ} : {A : Type ℓ} → List A → Option A
last [] = none
last (x ∷ []) = some x
last (x ∷ y ∷ xs) = last (y ∷ xs)

-- `items.contains(&s)`
unfoldable pub mem_str : List Str → Str → Bool
unfolding str_eq
mem_str xs s = any (λ x. str_eq x s) xs
