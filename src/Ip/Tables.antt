-- ===== src/Ip/Tables.antt =====
-- src/ip.rs: the rows of the allocation tables that cover an address.
use mathlib.Core.List.{Memᴰ}
use rust_whois.Prelude.{
  ℕ, ◌≡◌, refl, sym, ap, subst, Bool, true, false, ◌&&◌, ◌||◌, List, [], ◌∷◌, some, arith, ltb, all,
  Bool-cases, inl, inr,
}
use rust_whois.Ip.Addr.{IpAddr, v4, v6}
use rust_whois.Ip.Table.{
  Rir, arin, ripe, apnic, lacnic, afrinic, Range, in_range, find_range, rir_database, ipv4_to_u32,
  ipv6_to_u128, search_database,
}
use rust_whois.Ip.Validated.{rir_db, ValidatedIpAddress, detect_rir}
use rust_whois.Ip.Special.{is_private_or_special}
use rust_whois.Error.{ok}

abbrev same_rir : Rir → Rir → Bool
same_rir arin arin = true
same_rir ripe ripe = true
same_rir apnic apnic = true
same_rir lacnic lacnic = true
same_rir afrinic afrinic = true
same_rir _ _ = false

same_rir_sound : (a b : Rir) → same_rir a b ≡ true → a ≡ b
same_rir_sound arin b h = ground arith
same_rir_sound ripe b h = ground arith
same_rir_sound apnic b h = ground arith
same_rir_sound lacnic b h = ground arith
same_rir_sound afrinic b h = ground arith

-- the ranges are apart, or the registry is the same
agree : Range × Rir → Range × Rir → Bool
agree (a, r) (b, s) = ltb a.stop b.start || ltb b.stop a.start || same_rir r s

consistent : List (Range × Rir) → Bool
unfolding agree
consistent [] = true
consistent (e ∷ es) = all (agree e) es && consistent es

v4_consistent : consistent rir_db.ipv4_ranges ≡ true
unfolding rir_db consistent rir_database
v4_consistent = refl

v6_consistent : consistent rir_db.ipv6_ranges ≡ true
unfolding rir_db consistent rir_database
v6_consistent = refl

-- Row `e` is in the table and its range holds `ip`.
abbrev pub Covers : List (Range × Rir) → ℕ → Rir → Type 0
Covers table ip rir = (range : Range) × Memᴰ (range, rir) table × (in_range range ip ≡ true)

agree-same :
    (a b : Range × Rir) (ip : ℕ)
    → agree a b ≡ true
    → in_range a.0 ip ≡ true
    → in_range b.0 ip ≡ true
    → a.1 ≡ b.1
unfolding agree in_range
agree-same (a, r) (b, s) ip h p q = same_rir_sound r s (ground arith)

all-Memᴰ :
    (p : Range × Rir → Bool) (es : List (Range × Rir)) {e : Range × Rir}
    → all p es ≡ true
    → Memᴰ e es
    → p e ≡ true
all-Memᴰ p [] h m = elim m [ ]
all-Memᴰ p (x ∷ xs) h (Memᴰ.head same) = rw same (ground arith)
all-Memᴰ p (x ∷ xs) h (Memᴰ.tail m) = all-Memᴰ p xs (ground arith) m

find_range-Covers :
    (table : List (Range × Rir)) (ip : ℕ) (rir : Rir)
    → consistent table ≡ true
    → Covers table ip rir
    → find_range table ip ≡ some rir
unfolding consistent find_range
find_range-Covers [] ip rir h (range, m, covers) = elim m [ ]
find_range-Covers ((a, r) ∷ es) ip rir h (range, Memᴰ.head same, covers) =
    let here : in_range a ip ≡ true =
      subst (λ (e : Range × Rir). in_range e.0 ip ≡ true) same covers in
    rw here (ap (λ (e : Range × Rir). some e.1) (sym same))
find_range-Covers ((a, r) ∷ es) ip rir h (range, Memᴰ.tail m, covers) =
    elim (Bool-cases (in_range a ip)) [
      | inl here ↦ rw here (
          ap some (
            agree-same (a, r) (range, rir) ip (all-Memᴰ (agree (a, r)) es (ground arith) m) here
              covers))
      | inr later ↦ rw later (find_range-Covers es ip rir (ground arith) (range, m, covers))
    ]

-- The table that is searched for an address, and the number that it is searched for.
abbrev pub table_of : IpAddr → List (Range × Rir)
table_of (v4 a) = rir_db.ipv4_ranges
table_of (v6 a) = rir_db.ipv6_ranges

abbrev pub number_of : IpAddr → ℕ
number_of (v4 a) = ipv4_to_u32 a
number_of (v6 a) = ipv6_to_u128 a

table_of-consistent : (a : IpAddr) → consistent (table_of a) ≡ true
table_of-consistent (v4 a) = v4_consistent
table_of-consistent (v6 a) = v6_consistent

search_database-eq : (a : IpAddr) → search_database rir_db a ≡ find_range (table_of a) (number_of a)
unfolding search_database
search_database-eq (v4 a) = refl
search_database-eq (v6 a) = refl

-- Every row that covers a public address, of the table for its kind, names the registry that is
-- detected: the rows overlap only where they agree, so that their order does not matter.
pub detect_rir-Covers :
    (ip : ValidatedIpAddress) (rir : Rir)
    → is_private_or_special ip.addr ≡ false
    → Covers (table_of ip.addr) (number_of ip.addr) rir
    → detect_rir ip ≡ ok rir
unfolding detect_rir
detect_rir-Covers ip rir public covers =
    rw
      (
        public,
        search_database-eq ip.addr,
        find_range-Covers (table_of ip.addr) (number_of ip.addr) rir (table_of-consistent ip.addr)
            covers,
      )
      refl
