-- ===== src/Ip/Blocks/Six.antt =====
-- `is_private_or_special` of an IPv6 address against a list of address blocks.
use Prim.Native.Nat.{bit_and}
use mathlib.Core.Bool.{and_assoc, or_assoc, or-false}
use rust_whois.Prelude.{
  ℕ, ◌+◌, ◌-◌, ◌*◌, ◌/◌, ◌%◌, ◌^◌, ◌<◌, ◌≡◌, refl, subst, Bool, true, ◌&&◌, List, [], ◌∷◌, arith,
  ◌==◌, any,
}
use rust_whois.Ip.Addr.{v6, Ipv6, IsWords}
use rust_whois.Ip.Special.{is_private_or_special, is_zero_but_last}
use rust_whois.Ip.Table.{ipv6_to_u128}
use rust_whois.Ip.Blocks.{holds_under, holds_under-lookup, same, same_sound}

-- A block in CIDR notation, by the number of its address and of the bits that are fixed.
pub record Block6 : Type 0 where
  pub base : ℕ
  pub prefix : ℕ

abbrev block : ℕ → ℕ → Block6
block base prefix = record { base = base; prefix = prefix }

-- The addresses that agree with the block's in the bits of its prefix.
unfoldable pub in_block6 : Ipv6 → Block6 → Bool
unfolding ipv6_to_u128
in_block6 a b = let size = 2 ^ (128 - b.prefix) in ipv6_to_u128 a / size == b.base / size

-- A test of 16-bit numbers, by their two bytes.
word_test : (test : ℕ → Bool) → Bool
word_test test = holds_under (λ high. holds_under (λ low. test (high * 256 + low)) 256) 256

word_test-lookup : (test : ℕ → Bool) (x : ℕ) → x < 65536 → word_test test ≡ true → test x ≡ true
unfolding word_test
word_test-lookup test x h checked =
    let row =
      holds_under-lookup (λ high. holds_under (λ low. test (high * 256 + low)) 256) 256 (x / 256)
        (omega arith) checked in
    let cell =
      holds_under-lookup (λ low. test (x / 256 * 256 + low)) 256 (x % 256) (omega arith) row in
    let back : x / 256 * 256 + x % 256 ≡ x = omega arith in subst (λ y. test y ≡ true) back cell

-- The three masks keep the upper eight, seven and ten bits.
mask_ff00 : (x : ℕ) → x < 65536 → (bit_and x 0xff00 == 0xff00) ≡ (x / 256 == 0xff)
unfolding word_test holds_under same
mask_ff00 x h =
    same_sound (bit_and x 0xff00 == 0xff00) (x / 256 == 0xff)
      (word_test-lookup (λ y. same (bit_and y 0xff00 == 0xff00) (y / 256 == 0xff)) x h refl)

mask_fe00 : (x : ℕ) → x < 65536 → (bit_and x 0xfe00 == 0xfc00) ≡ (x / 512 == 0x7e)
unfolding word_test holds_under same
mask_fe00 x h =
    same_sound (bit_and x 0xfe00 == 0xfc00) (x / 512 == 0x7e)
      (word_test-lookup (λ y. same (bit_and y 0xfe00 == 0xfc00) (y / 512 == 0x7e)) x h refl)

mask_ffc0 : (x : ℕ) → x < 65536 → (bit_and x 0xffc0 == 0xfe80) ≡ (x / 64 == 0x3fa)
unfolding word_test holds_under same
mask_ffc0 x h =
    same_sound (bit_and x 0xffc0 == 0xfe80) (x / 64 == 0x3fa)
      (word_test-lookup (λ y. same (bit_and y 0xffc0 == 0xfe80) (y / 64 == 0x3fa)) x h refl)

-- The blocks that the comments of the source name, in its order: ::1, ff00::/8, ::, fc00::/7,
-- fe80::/10 and 2001:db8::/32.
abbrev pub special_blocks6 : List Block6
special_blocks6 =
    block 1 128
    ∷ block (0xff * 2 ^ 120) 8
    ∷ block 0 128
    ∷ block (0x7e * 2 ^ 121) 7
    ∷ block (0x3fa * 2 ^ 118) 10
    ∷ block (0x20010db8 * 2 ^ 96) 32
    ∷ []

-- The number of an address is its first segment, and what is below.
split_number :
    (a : Ipv6)
    → IsWords a
    → (low : ℕ) × (low < 2 ^ 96) × (ipv6_to_u128 a ≡ (a.s0 * 65536 + a.s1) * 2 ^ 96 + low)
unfolding ipv6_to_u128
split_number a h =
    let w2 = h.w2 in
    let w3 = h.w3 in
    let w4 = h.w4 in
    let w5 = h.w5 in
    let w6 = h.w6 in
    let w7 = h.w7 in
    (
      ((((a.s2 * 65536 + a.s3) * 65536 + a.s4) * 65536 + a.s5) * 65536 + a.s6) * 65536 + a.s7,
      omega arith,
      omega arith,
    )

-- The quotients by the sizes of the blocks.
quotient :
    (first second low n : ℕ)
    → second < 65536
    → low < 2 ^ 96
    → n ≡ (first * 65536 + second) * 2 ^ 96 + low
    → (n / 2 ^ 120 ≡ first / 256)
      × (n / 2 ^ 121 ≡ first / 512)
      × (n / 2 ^ 118 ≡ first / 64)
      × (n / 2 ^ 96 ≡ first * 65536 + second)
quotient first second low n w fits e = (omega arith, omega arith, omega arith, omega arith)

last_word :
    (high low last : ℕ)
    → low < 65536
    → last < 65536
    → (high * 65536 + low == last) ≡ (high == 0 && low == last)
last_word high low last h small = ground arith

zero_number :
    (a : Ipv6) (last : ℕ)
    → IsWords a
    → last < 65536
    → (ipv6_to_u128 a == last) ≡ (is_zero_but_last a && a.s7 == last)
unfolding ipv6_to_u128
zero_number a last h small =
    let none_last : 0 < 65536 = omega arith in
    rw
      (
        last_word _ a.s7 last h.w7 small,
        last_word _ a.s6 0 h.w6 none_last,
        last_word _ a.s5 0 h.w5 none_last,
        last_word _ a.s4 0 h.w4 none_last,
        last_word _ a.s3 0 h.w3 none_last,
        last_word _ a.s2 0 h.w2 none_last,
        last_word _ a.s1 0 h.w1 none_last,
      )
      (simp and_assoc)

module _ (a : Ipv6) (h : IsWords a) where
  quotients :
      (ipv6_to_u128 a / 2 ^ 120 ≡ a.s0 / 256)
      × (ipv6_to_u128 a / 2 ^ 121 ≡ a.s0 / 512)
      × (ipv6_to_u128 a / 2 ^ 118 ≡ a.s0 / 64)
      × (ipv6_to_u128 a / 2 ^ 96 ≡ a.s0 * 65536 + a.s1)
  quotients =
      let (low, fits, e) = split_number a h in quotient a.s0 a.s1 low (ipv6_to_u128 a) h.w1 fits e

  b_loopback : in_block6 a (block 1 128) ≡ (is_zero_but_last a && a.s7 == 1)
  unfolding in_block6
  b_loopback =
      let whole : ipv6_to_u128 a / 1 ≡ ipv6_to_u128 a = omega arith in
      rw whole (zero_number a 1 h (omega arith))

  b_unspecified : in_block6 a (block 0 128) ≡ (is_zero_but_last a && a.s7 == 0)
  unfolding in_block6
  b_unspecified =
      let whole : ipv6_to_u128 a / 1 ≡ ipv6_to_u128 a = omega arith in
      rw whole (zero_number a 0 h (omega arith))

  b_multicast : in_block6 a (block (0xff * 2 ^ 120) 8) ≡ (bit_and a.s0 0xff00 == 0xff00)
  unfolding in_block6
  b_multicast = let (q, _, _, _) = quotients in rw (mask_ff00 a.s0 h.w0, q) refl

  b_unique_local : in_block6 a (block (0x7e * 2 ^ 121) 7) ≡ (bit_and a.s0 0xfe00 == 0xfc00)
  unfolding in_block6
  b_unique_local = let (_, q, _, _) = quotients in rw (mask_fe00 a.s0 h.w0, q) refl

  b_link_local : in_block6 a (block (0x3fa * 2 ^ 118) 10) ≡ (bit_and a.s0 0xffc0 == 0xfe80)
  unfolding in_block6
  b_link_local = let (_, _, q, _) = quotients in rw (mask_ffc0 a.s0 h.w0, q) refl

  b_documentation :
      in_block6 a (block (0x20010db8 * 2 ^ 96) 32) ≡ (a.s0 == 0x2001 && a.s1 == 0x0db8)
  unfolding in_block6
  b_documentation = let (_, _, _, q) = quotients in let w1 = h.w1 in rw q (ground arith)

  -- An IPv6 address is refused exactly if it lies in one of the blocks.
  pub is_private_or_special-in_block6 :
      is_private_or_special (v6 a) ≡ any (in_block6 a) special_blocks6
  unfolding is_private_or_special
  is_private_or_special-in_block6 = simp (
    b_loopback, b_multicast, b_unspecified, b_unique_local, b_link_local, b_documentation, or_assoc,
    or-false,
  )
