-- ===== src/Ip/RoundTrip/Hex.antt =====
-- Printing a 16-bit number in hexadecimal and reading it back.
use rust_whois.Prelude.{
  ℕ, ◌+◌, ◌*◌, ◌/◌, ◌%◌, ◌≤◌, ◌<◌, ◌≡◌, refl, ap, ◌∙◌, true, [], ◌∷◌, ◌++◌, some, arith, ltb,
  Bool-cases, inl, inr,
}
use rust_whois.Text.{Str}
use rust_whois.Ip.Parse.{digit_value, Number, read_digits, read_number}
use rust_whois.Ip.Show.{digit, show_hex}

-- The text does not begin with a hexadecimal digit.
abbrev pub NoHex : Str → Type 0
NoHex [] = Unit
NoHex (c ∷ s) = 16 ≤ digit_value c

read_digits-end :
    (acc n : ℕ) (s : Str)
    → NoHex s
    → read_digits 16 acc n s ≡ record { value = acc; digit_count = n; rest = s }
unfolding read_digits
read_digits-end acc n [] h = refl
read_digits-end acc n (c ∷ s) h = ground arith

digit_value-digit : (d : ℕ) → d < 16 → digit_value (digit d) ≡ d
unfolding digit_value
digit_value-digit d h = ground arith

read_digits-hex :
    (acc n d : ℕ) (s : Str)
    → d < 16
    → read_digits 16 acc n (digit d ∷ s) ≡ read_digits 16 (acc * 16 + d) (n + 1) s
unfolding read_digits
read_digits-hex acc n d s h = let e = digit_value-digit d h in rw e (ground arith)

-- What `read_number` makes of the digits that were read.
read_number_of :
    (s : Str) (n : Number)
    → read_digits 16 0 0 s ≡ n
    → n.digit_count ≤ 4
    → 0 < n.digit_count
    → n.value < 65536
    → read_number 16 4 true 65536 s ≡ some (n.value, n.rest)
unfolding read_number
read_number_of s n e most least fits = rw e (ground arith)

module _ (s : Str) (k : NoHex s) where
  hex1 : (a : ℕ) → a < 16 → read_number 16 4 true 65536 (digit a ∷ s) ≡ some (a, s)
  hex1 a h =
      read_number_of _ (record { value = a; digit_count = 1; rest = s })
        (read_digits-hex 0 0 a s h
          ∙ read_digits-end (0 * 16 + a) (0 + 1) s k
          ∙ ap (λ v. record { value = v; digit_count = 1; rest = s }) (omega arith))
        (omega arith) (omega arith) (omega arith)

  hex2 :
      (a b : ℕ)
      → a < 16
      → b < 16
      → read_number 16 4 true 65536 (digit a ∷ digit b ∷ s) ≡ some (a * 16 + b, s)
  hex2 a b ha hb =
      read_number_of _ (record { value = a * 16 + b; digit_count = 2; rest = s })
        (read_digits-hex 0 0 a _ ha
          ∙ read_digits-hex (0 * 16 + a) (0 + 1) b s hb
          ∙ read_digits-end ((0 * 16 + a) * 16 + b) (0 + 1 + 1) s k
          ∙ ap (λ v. record { value = v; digit_count = 2; rest = s }) (omega arith))
        (omega arith) (omega arith) (omega arith)

  hex3 :
      (a b c : ℕ)
      → a < 16
      → b < 16
      → c < 16
      → read_number 16 4 true 65536 (digit a ∷ digit b ∷ digit c ∷ s)
        ≡ some (a * 256 + b * 16 + c, s)
  hex3 a b c ha hb hc =
      read_number_of _ (record { value = a * 256 + b * 16 + c; digit_count = 3; rest = s })
        (read_digits-hex 0 0 a _ ha
          ∙ read_digits-hex (0 * 16 + a) (0 + 1) b _ hb
          ∙ read_digits-hex ((0 * 16 + a) * 16 + b) (0 + 1 + 1) c s hc
          ∙ read_digits-end (((0 * 16 + a) * 16 + b) * 16 + c) (0 + 1 + 1 + 1) s k
          ∙ ap (λ v. record { value = v; digit_count = 3; rest = s }) (omega arith))
        (omega arith) (omega arith) (omega arith)

  hex4 :
      (a b c d : ℕ)
      → a < 16
      → b < 16
      → c < 16
      → d < 16
      → read_number 16 4 true 65536 (digit a ∷ digit b ∷ digit c ∷ digit d ∷ s)
        ≡ some (a * 4096 + b * 256 + c * 16 + d, s)
  hex4 a b c d ha hb hc hd =
      read_number_of _
        (record { value = a * 4096 + b * 256 + c * 16 + d; digit_count = 4; rest = s })
        (read_digits-hex 0 0 a _ ha
          ∙ read_digits-hex (0 * 16 + a) (0 + 1) b _ hb
          ∙ read_digits-hex ((0 * 16 + a) * 16 + b) (0 + 1 + 1) c _ hc
          ∙ read_digits-hex (((0 * 16 + a) * 16 + b) * 16 + c) (0 + 1 + 1 + 1) d s hd
          ∙ read_digits-end ((((0 * 16 + a) * 16 + b) * 16 + c) * 16 + d) (0 + 1 + 1 + 1 + 1) s k
          ∙ ap (λ v. record { value = v; digit_count = 4; rest = s }) (omega arith))
        (omega arith) (omega arith) (omega arith)

  -- A printed group is read back, whatever follows that is no hexadecimal digit.
  pub read_number-show_hex :
      (n : ℕ) → n < 65536 → read_number 16 4 true 65536 (show_hex n ++ s) ≡ some (n, s)
  unfolding show_hex
  read_number-show_hex n h = elim (Bool-cases (ltb n 16)) [
    | inl one ↦ rw one (hex1 n (ground arith))
    | inr more ↦ elim (Bool-cases (ltb n 256)) [
      | inl two ↦
          rw (more, two)
            (hex2 (n / 16) (n % 16) (ground arith) (omega arith)
              ∙ ap (λ v. some (v, s)) (omega arith))
      | inr longer ↦ elim (Bool-cases (ltb n 4096)) [
        | inl three ↦
            rw (more, longer, three)
              (hex3 (n / 256) (n / 16 % 16) (n % 16) (ground arith) (omega arith) (omega arith)
                ∙ ap (λ v. some (v, s)) (omega arith))
        | inr four ↦
            rw (more, longer, four)
              (hex4 (n / 4096) (n / 256 % 16) (n / 16 % 16) (n % 16) (omega arith) (omega arith)
                  (omega arith) (omega arith)
                ∙ ap (λ v. some (v, s)) (omega arith))
      ]
    ]
  ]
