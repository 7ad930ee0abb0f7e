-- ===== src/Ip/RoundTrip.antt =====
-- Printing an IPv4 address and reading it back.
pub mod Hex
pub mod NoQuad
pub mod Groups
pub mod Runs
pub mod Mapped
pub mod Six
pub mod Bounds
use rust_whois.Prelude.{
  ℕ, ◌+◌, ◌*◌, ◌/◌, ◌%◌, ◌≤◌, ◌<◌, ◌≡◌, refl, ap, ◌∙◌, false, [], ◌∷◌, ◌++◌, some, arith, ltb, ◌==◌,
  Bool-cases, inl, inr,
}
use mathlib.Core.List.{append_assoc, append-nil}
use rust_whois.Text.{Str}
use rust_whois.Ip.Addr.{v4, Ipv4, IsBytes}
use rust_whois.Ip.Parse.{
  digit_value, Number, read_digits, starts_with_zero, read_number, read_given_char, read_ipv4,
  parse_ip,
}
use rust_whois.Ip.Show.{show_byte, show_ipv4, show_ip}

-- The text does not begin with a decimal digit.
abbrev pub NoDigit : Str → Type 0
NoDigit [] = Unit
NoDigit (c ∷ s) = 10 ≤ digit_value c

read_digits-stop :
    (acc n : ℕ) (s : Str)
    → NoDigit s
    → read_digits 10 acc n s ≡ record { value = acc; digit_count = n; rest = s }
unfolding read_digits
read_digits-stop acc n [] h = refl
read_digits-stop acc n (c ∷ s) h = ground arith

read_digits-digit :
    (acc n d : ℕ) (s : Str)
    → d < 10
    → read_digits 10 acc n ((b'0' + d) ∷ s) ≡ read_digits 10 (acc * 10 + d) (n + 1) s
unfolding read_digits digit_value
read_digits-digit acc n d s h = ground arith

starts_with_zero_iff : (d : ℕ) (s : Str) → starts_with_zero ((b'0' + d) ∷ s) ≡ (d == 0)
unfolding starts_with_zero
starts_with_zero_iff d s = ground arith

-- What `read_number` makes of the digits that were read.
read_number_of :
    (s : Str) (n : Number)
    → read_digits 10 0 0 s ≡ n
    → n.digit_count ≤ 3
    → 0 < n.digit_count
    → (1 < n.digit_count → starts_with_zero s ≡ false)
    → n.value < 256
    → read_number 10 3 false 256 s ≡ some (n.value, n.rest)
unfolding read_number
read_number_of s n e most least zeros fits = rw e (ground arith)

module _ (s : Str) (k : NoDigit s) where
  number1 : (a : ℕ) → a < 10 → read_number 10 3 false 256 ((b'0' + a) ∷ s) ≡ some (a, s)
  number1 a h =
      read_number_of _ (record { value = a; digit_count = 1; rest = s })
        (read_digits-digit 0 0 a s h
          ∙ read_digits-stop (0 * 10 + a) (0 + 1) s k
          ∙ ap (λ v. record { value = v; digit_count = 1; rest = s }) (omega arith))
        (omega arith) (omega arith) (λ p. absurd (omega arith)) (omega arith)

  number2 :
      (a b : ℕ)
      → a < 10
      → b < 10
      → 0 < a
      → read_number 10 3 false 256 ((b'0' + a) ∷ (b'0' + b) ∷ s) ≡ some (a * 10 + b, s)
  number2 a b ha hb pos =
      read_number_of _ (record { value = a * 10 + b; digit_count = 2; rest = s })
        (read_digits-digit 0 0 a _ ha
          ∙ read_digits-digit (0 * 10 + a) (0 + 1) b s hb
          ∙ read_digits-stop ((0 * 10 + a) * 10 + b) (0 + 1 + 1) s k
          ∙ ap (λ v. record { value = v; digit_count = 2; rest = s }) (omega arith))
        (omega arith) (omega arith) (λ p. starts_with_zero_iff a _ ∙ ground arith) (omega arith)

  number3 :
      (a b c : ℕ)
      → a < 10
      → b < 10
      → c < 10
      → 0 < a
      → a * 100 + b * 10 + c < 256
      → read_number 10 3 false 256 ((b'0' + a) ∷ (b'0' + b) ∷ (b'0' + c) ∷ s)
        ≡ some (a * 100 + b * 10 + c, s)
  number3 a b c ha hb hc pos fits =
      read_number_of _ (record { value = a * 100 + b * 10 + c; digit_count = 3; rest = s })
        (read_digits-digit 0 0 a _ ha
          ∙ read_digits-digit (0 * 10 + a) (0 + 1) b _ hb
          ∙ read_digits-digit ((0 * 10 + a) * 10 + b) (0 + 1 + 1) c s hc
          ∙ read_digits-stop (((0 * 10 + a) * 10 + b) * 10 + c) (0 + 1 + 1 + 1) s k
          ∙ ap (λ v. record { value = v; digit_count = 3; rest = s }) (omega arith))
        (omega arith) (omega arith) (λ p. starts_with_zero_iff a _ ∙ ground arith) fits

  -- A printed byte is read back, whatever follows that is no digit.
  read_number-show_byte :
      (n : ℕ) → n < 256 → read_number 10 3 false 256 (show_byte n ++ s) ≡ some (n, s)
  unfolding show_byte
  read_number-show_byte n h = elim (Bool-cases (ltb n 10)) [
    | inl one ↦ rw one (number1 n (ground arith))
    | inr more ↦ elim (Bool-cases (ltb n 100)) [
      | inl two ↦
          rw (more, two)
            (number2 (n / 10) (n % 10) (ground arith) (omega arith) (ground arith)
              ∙ ap (λ v. some (v, s)) (omega arith))
      | inr three ↦
          rw (more, three)
            (number3 (n / 100) (n / 10 % 10) (n % 10) (omega arith) (omega arith) (omega arith)
                (ground arith) (omega arith)
              ∙ ap (λ v. some (v, s)) (omega arith))
    ]
  ]

dot-NoDigit : (s : Str) → NoDigit (b'.' ∷ s)
unfolding digit_value
dot-NoDigit s = omega arith

-- An octet and the dot behind it.
read_number-show_byte_dot :
    (n : ℕ) (s : Str)
    → n < 256
    → read_number 10 3 false 256 (show_byte n ++ (b'.' ∷ s)) ≡ some (n, b'.' ∷ s)
read_number-show_byte_dot n s h = read_number-show_byte (b'.' ∷ s) (dot-NoDigit s) n h

pub read_ipv4-show_ipv4 :
    (a : Ipv4) (s : Str) → IsBytes a → NoDigit s → read_ipv4 (show_ipv4 a ++ s) ≡ some (a, s)
unfolding read_ipv4 show_ipv4 read_given_char
read_ipv4-show_ipv4 a s h k = simp append_assoc (
    rw (
      read_number-show_byte_dot a.o0 _ h.b0,
      read_number-show_byte_dot a.o1 _ h.b1,
      read_number-show_byte_dot a.o2 _ h.b2,
      read_number-show_byte s k a.o3 h.b3,
    ))

-- An IPv4 address survives printing and parsing.
pub parse_ip-show_ip : (a : Ipv4) → IsBytes a → parse_ip (show_ip (v4 a)) ≡ some (v4 a)
unfolding parse_ip show_ip
parse_ip-show_ip a h = rw (← append-nil (show_ipv4 a), read_ipv4-show_ipv4 a [] h tt)
