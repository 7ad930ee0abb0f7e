-- ===== src/Ip/Octets.antt =====
-- src/ip.rs: the table of IPv4 rows by the first octet.
use rust_whois.Prelude.{
  ℕ, ◌/◌, ◌%◌, ◌≡◌, ◌≢◌, refl, sym, ◌∙◌, Bool, true, ◌&&◌, ◌||◌, List, [], ◌∷◌, arith, ◌==◌, all,
}
use rust_whois.Ip.Addr.{v4, Ipv4, IsBytes}
use rust_whois.Ip.Table.{
  Rir, Range, in_range, find_range, rir_database, ipv4_to_u32, search_database,
}
use rust_whois.Ip.Validated.{rir_db}

-- The range is made of whole /8 blocks, or lies in 100.0.0.0/8.
aligned : Range × Rir → Bool
aligned (r, _) =
    (r.start % 16777216 == 0 && r.stop % 16777216 == 16777215)
    || (r.start / 16777216 == 100 && r.stop / 16777216 == 100)

aligned_rows : all aligned rir_db.ipv4_ranges ≡ true
unfolding rir_db rir_database aligned
aligned_rows = refl

row_by_octet :
    (r : Range) (rir : Rir) (x y : ℕ)
    → aligned (r, rir) ≡ true
    → x / 16777216 ≡ y / 16777216
    → x / 16777216 ≢ 100
    → in_range r x ≡ in_range r y
unfolding aligned in_range
row_by_octet r rir x y h e ne = ground arith

find_range_by_octet :
    (table : List (Range × Rir)) (x y : ℕ)
    → all aligned table ≡ true
    → x / 16777216 ≡ y / 16777216
    → x / 16777216 ≢ 100
    → find_range table x ≡ find_range table y
unfolding find_range
find_range_by_octet [] x y h e ne = refl
find_range_by_octet ((r, rir) ∷ table) x y h e ne =
    rw (
      row_by_octet r rir x y (ground arith) e ne,
      find_range_by_octet table x y (ground arith) e ne,
    )

first_octet : (a : Ipv4) → IsBytes a → ipv4_to_u32 a / 16777216 ≡ a.o0
unfolding ipv4_to_u32
first_octet a h = omega arith

-- Two IPv4 addresses with the same first octet, other than 100, get the same answer of the table.
pub search_database_by_octet :
    (a b : Ipv4)
    → IsBytes a
    → IsBytes b
    → a.o0 ≡ b.o0
    → a.o0 ≢ 100
    → search_database rir_db (v4 a) ≡ search_database rir_db (v4 b)
unfolding search_database
search_database_by_octet a b ha hb e ne =
    find_range_by_octet rir_db.ipv4_ranges (ipv4_to_u32 a) (ipv4_to_u32 b) aligned_rows
      (first_octet a ha ∙ e ∙ sym (first_octet b hb)) (λ p. ne (sym (first_octet a ha) ∙ p))
