-- ===== src/Ip/RoundTrip/NoQuad.antt =====
-- Texts that begin with no IPv4 address.
use rust_whois.Prelude.{
  ℕ, ◌+◌, ◌*◌, ◌<◌, ◌≡◌, ◌≢◌, refl, [], ◌∷◌, ◌++◌, none, some, arith, ltb, Bool-cases, Option-cases,
  inl, inr,
}
use rust_whois.Text.{Str, HasNo}
use rust_whois.Ip.Parse.{
  digit_value, read_digits, read_number, read_octet, read_given_char, read_ipv4,
}
use rust_whois.Ip.Show.{show_hex}

-- No dot comes right after the decimal digits at the head.
abbrev pub NoQuad : Str → Type 0
NoQuad [] = Unit
NoQuad (c ∷ s) = (c ≢ b'.') × (digit_value c < 10 → NoQuad s)

abbrev NoDot : Str → Type 0
NoDot [] = Unit
NoDot (c ∷ s) = c ≢ b'.'

rest-NoDot : (acc n : ℕ) (s : Str) → NoQuad s → NoDot (read_digits 10 acc n s).rest
unfolding read_digits
rest-NoDot acc n [] h = tt
rest-NoDot acc n (c ∷ s) (no_dot, later) = elim (Bool-cases (ltb (digit_value c) 10)) [
  | inl more ↦ rw more (rest-NoDot (acc * 10 + digit_value c) (n + 1) s (later (ground arith)))
  | inr stop ↦ rw stop no_dot
]

read_octet-rest :
    (s : Str) {v : ℕ} {r : Str} → read_octet s ≡ some (v, r) → r ≡ (read_digits 10 0 0 s).rest
unfolding read_number
read_octet-rest s h = ground arith

read_given_char-NoDot : (s : Str) → NoDot s → read_given_char b'.' s ≡ none
unfolding read_given_char
read_given_char-NoDot [] h = refl
read_given_char-NoDot (c ∷ s) h = ground arith

pub read_ipv4-NoQuad : (s : Str) → NoQuad s → read_ipv4 s ≡ none
unfolding read_ipv4
read_ipv4-NoQuad s h = elim (Option-cases (read_octet s)) [
  | inl failed ↦ rw failed refl
  | inr ((v, r), found) ↦
      rw (found, read_octet-rest s found, read_given_char-NoDot _ (rest-NoDot 0 0 s h)) refl
]

NoQuad-append : (t s : Str) → HasNo b'.' t → NoQuad s → NoQuad (t ++ s)
NoQuad-append [] s h k = k
NoQuad-append (c ∷ t) s (no_dot, h) k = (no_dot, λ _. NoQuad-append t s h k)

show_hex-HasNo : (n : ℕ) → n < 65536 → HasNo b'.' (show_hex n)
unfolding show_hex
show_hex-HasNo n h = ground arith

pub NoQuad-show_hex : (n : ℕ) (s : Str) → n < 65536 → NoQuad s → NoQuad (show_hex n ++ s)
NoQuad-show_hex n s h k = NoQuad-append (show_hex n) s (show_hex-HasNo n h) k

pub NoQuad-colon : (s : Str) → NoQuad (b':' ∷ s)
unfolding digit_value
NoQuad-colon s = (omega arith, λ few. absurd (omega arith))
