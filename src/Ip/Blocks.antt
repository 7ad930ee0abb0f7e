-- ===== src/Ip/Blocks.antt =====
-- `is_private_or_special` against a list of address blocks.
pub mod Six
pub mod Both
use Prim.Native.Nat.{bit_and}
use mathlib.Core.Bool.{or_assoc, or-false}
use rust_whois.Prelude.{
  ℕ, zero, suc, ◌+◌, ◌-◌, ◌*◌, ◌/◌, ◌^◌, ◌<◌, ◌≡◌, refl, Bool, true, false, not, ◌&&◌, List, [],
  ◌∷◌, arith, leb, ◌==◌, any,
}
use rust_whois.Ip.Addr.{v4, v6, Ipv4, Ipv6, IsBytes}
use rust_whois.Ip.Special.{is_private_or_special}
use rust_whois.Ip.Table.{ipv4_to_u32}

-- A block in CIDR notation: an address and the number of bits that are fixed.
pub record Block : Type 0 where
  pub base : Ipv4
  pub prefix : ℕ

abbrev block : ℕ → ℕ → ℕ → ℕ → ℕ → Block
block a b c d n = record { base = record { o0 = a; o1 = b; o2 = c; o3 = d }; prefix = n }

-- The addresses that agree with the block's in the bits of its prefix.
unfoldable pub in_block : Ipv4 → Block → Bool
unfolding ipv4_to_u32
in_block a b = let size = 2 ^ (32 - b.prefix) in ipv4_to_u32 a / size == ipv4_to_u32 b.base / size

-- The blocks that the comments of the source name, in its order.
abbrev pub special_blocks : List Block
special_blocks =
    block 10 0 0 0 8
    ∷ block 172 16 0 0 12
    ∷ block 192 168 0 0 16
    ∷ block 127 0 0 0 8
    ∷ block 169 254 0 0 16
    ∷ block 192 0 2 0 24
    ∷ block 198 51 100 0 24
    ∷ block 203 0 113 0 24
    ∷ block 255 255 255 255 32
    ∷ block 224 0 0 0 4
    ∷ block 0 0 0 0 32
    ∷ block 100 64 0 0 10
    ∷ block 240 0 0 0 4
    ∷ block 198 18 0 0 15
    ∷ []

-- The test holds of every number under the bound.
unfoldable pub holds_under : (ℕ → Bool) → ℕ → Bool
holds_under test zero = true
holds_under test (suc bound) = holds_under test bound && test bound

pub holds_under-lookup :
    (test : ℕ → Bool) (bound byte : ℕ)
    → byte < bound
    → holds_under test bound ≡ true
    → test byte ≡ true
unfolding holds_under
holds_under-lookup test zero byte under checked = absurd (omega arith)
holds_under-lookup test (suc bound) byte under checked =
    ground (arith, holds_under-lookup test bound byte)

unfoldable pub same : Bool → Bool → Bool
same true b = b
same false b = not b

pub same_sound : (a b : Bool) → same a b ≡ true → a ≡ b
unfolding same
same_sound a b h = ground arith

-- the mask of 100.64.0.0/10 keeps the upper two bits
mask_c0 : (x : ℕ) → x < 256 → (bit_and x 0xC0 == 64) ≡ (x / 64 == 1)
unfolding holds_under same
mask_c0 x h =
    same_sound (bit_and x 0xC0 == 64) (x / 64 == 1)
      (holds_under-lookup (λ y. same (bit_and y 0xC0 == 64) (y / 64 == 1)) 256 x h refl)

-- the mask of 198.18.0.0/15 drops the last bit
mask_fe : (x : ℕ) → x < 256 → (bit_and x 0xFE == 18) ≡ (x / 2 == 9)
unfolding holds_under same
mask_fe x h =
    same_sound (bit_and x 0xFE == 18) (x / 2 == 9)
      (holds_under-lookup (λ y. same (bit_and y 0xFE == 18) (y / 2 == 9)) 256 x h refl)

-- the two tests of one block
module _ (a : Ipv4) (h : IsBytes a) where
  b10 : in_block a (block 10 0 0 0 8) ≡ (a.o0 == 10)
  unfolding in_block
  b10 = ground arith

  b172 : in_block a (block 172 16 0 0 12) ≡ (a.o0 == 172 && leb 16 a.o1 && leb a.o1 31)
  unfolding in_block
  b172 = ground arith

  b192_168 : in_block a (block 192 168 0 0 16) ≡ (a.o0 == 192 && a.o1 == 168)
  unfolding in_block
  b192_168 = ground arith

  b203 : in_block a (block 203 0 113 0 24) ≡ (a.o0 == 203 && a.o1 == 0 && a.o2 == 113)
  unfolding in_block
  b203 = ground arith

  b255 :
      in_block a (block 255 255 255 255 32)
      ≡ (a.o0 == 255 && a.o1 == 255 && a.o2 == 255 && a.o3 == 255)
  unfolding in_block
  b255 = ground arith

  b127 : in_block a (block 127 0 0 0 8) ≡ (a.o0 == 127)
  unfolding in_block
  b127 = ground arith

  b169 : in_block a (block 169 254 0 0 16) ≡ (a.o0 == 169 && a.o1 == 254)
  unfolding in_block
  b169 = ground arith

  b192_0 : in_block a (block 192 0 2 0 24) ≡ (a.o0 == 192 && a.o1 == 0 && a.o2 == 2)
  unfolding in_block
  b192_0 = ground arith

  b198_51 : in_block a (block 198 51 100 0 24) ≡ (a.o0 == 198 && a.o1 == 51 && a.o2 == 100)
  unfolding in_block
  b198_51 = ground arith

  b224 : in_block a (block 224 0 0 0 4) ≡ (leb 224 a.o0 && leb a.o0 239)
  unfolding in_block
  b224 = ground arith

  b0 : in_block a (block 0 0 0 0 32) ≡ (a.o0 == 0 && a.o1 == 0 && a.o2 == 0 && a.o3 == 0)
  unfolding in_block
  b0 = ground arith

  b100 : in_block a (block 100 64 0 0 10) ≡ (a.o0 == 100 && bit_and a.o1 0xC0 == 64)
  unfolding in_block
  b100 = rw (mask_c0 a.o1 h.b1) (ground arith)

  b240 : in_block a (block 240 0 0 0 4) ≡ leb 240 a.o0
  unfolding in_block
  b240 = ground arith

  b198_18 : in_block a (block 198 18 0 0 15) ≡ (a.o0 == 198 && bit_and a.o1 0xFE == 18)
  unfolding in_block
  b198_18 = rw (mask_fe a.o1 h.b1) (ground arith)

  -- An IPv4 address is refused exactly if it lies in one of the blocks.
  pub is_private_or_special-in_block :
      is_private_or_special (v4 a) ≡ any (in_block a) special_blocks
  unfolding is_private_or_special
  is_private_or_special-in_block = simp (
    b10, b172, b192_168, b127, b169, b192_0, b198_51, b203, b255, b224, b0, b100, b240, b198_18,
    or_assoc, or-false,
  )

-- The address `::ffff:a.b.c.d` that stands for an IPv4 address.
abbrev pub ipv4_mapped : Ipv4 → Ipv6
ipv4_mapped a = record {
  s0 = 0;
  s1 = 0;
  s2 = 0;
  s3 = 0;
  s4 = 0;
  s5 = 0xffff;
  s6 = a.o0 * 256 + a.o1;
  s7 = a.o2 * 256 + a.o3;
}

-- The test passes every IPv4-mapped IPv6 address, also where it refuses the IPv4 address itself.
pub is_private_or_special-ipv4_mapped :
    (a : Ipv4) → is_private_or_special (v6 (ipv4_mapped a)) ≡ false
unfolding is_private_or_special
is_private_or_special-ipv4_mapped a = refl
