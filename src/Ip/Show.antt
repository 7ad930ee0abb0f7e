-- ===== src/Ip/Show.antt =====
-- `Display` of `Ipv4Addr`, `Ipv6Addr` and `IpAddr`.
use rust_whois.Prelude.{
  ℕ, zero, suc, ◌+◌, ◌-◌, ◌/◌, ◌%◌, Bool, ◌&&◌, List, [], ◌∷◌, ◌++◌, ltb, ◌==◌, if◌then◌else◌,
}
use rust_whois.Text.{Str, codes}
use rust_whois.Ip.Addr.{Ipv4, Ipv6, IpAddr, v4, v6}

-- A digit, with lower-case letters.
abbrev pub digit : ℕ → ℕ
digit d = if ltb d 10 then b'0' + d else b'a' + (d - 10)

-- A byte in decimal.
unfoldable pub show_byte : ℕ → Str
show_byte n =
    if ltb n 10
    then (b'0' + n) ∷ []
    else if ltb n 100
    then (b'0' + n / 10) ∷ (b'0' + n % 10) ∷ []
    else (b'0' + n / 100) ∷ (b'0' + n / 10 % 10) ∷ (b'0' + n % 10) ∷ []

-- A 16-bit number by `{:x}`.
unfoldable pub show_hex : ℕ → Str
show_hex n =
    if ltb n 16
    then digit n ∷ []
    else if ltb n 256
    then digit (n / 16) ∷ digit (n % 16) ∷ []
    else if ltb n 4096
    then digit (n / 256) ∷ digit (n / 16 % 16) ∷ digit (n % 16) ∷ []
    else digit (n / 4096) ∷ digit (n / 256 % 16) ∷ digit (n / 16 % 16) ∷ digit (n % 16) ∷ []

unfoldable pub show_ipv4 : Ipv4 → Str
unfolding show_byte
show_ipv4 a =
    show_byte a.o0
    ++ (b'.' ∷ (show_byte a.o1 ++ (b'.' ∷ (show_byte a.o2 ++ (b'.' ∷ show_byte a.o3)))))

-- `fmt_subslice`: segments with colons between
unfoldable pub join_hex : List ℕ → Str
join_hex [] = []
join_hex (s ∷ []) = show_hex s
join_hex (s ∷ t ∷ ss) = show_hex s ++ (b':' ∷ join_hex (t ∷ ss))

pub record Span : Type 0 where
  pub start : ℕ
  pub size : ℕ

-- the loop that finds the first longest run of zero segments
unfoldable pub longest_zeros : ℕ → Span → Span → List ℕ → Span
longest_zeros i longest current [] = longest
longest_zeros i longest current (s ∷ ss) =
    let begun = if current.size == 0 then i else current.start in
    let current' : Span = record { start = begun; size = current.size + 1 } in
    let longer = if ltb longest.size current'.size then current' else longest in
    longest_zeros (i + 1) (if s == 0 then longer else longest)
      (if s == 0 then current' else record { start = 0; size = 0 }) ss

unfoldable pub take : ℕ → List ℕ → List ℕ
take zero xs = []
take (suc n) [] = []
take (suc n) (x ∷ xs) = x ∷ take n xs

unfoldable pub drop : ℕ → List ℕ → List ℕ
drop zero xs = xs
drop (suc n) [] = []
drop (suc n) (x ∷ xs) = drop n xs

abbrev pub segments : Ipv6 → List ℕ
segments a = a.s0 ∷ a.s1 ∷ a.s2 ∷ a.s3 ∷ a.s4 ∷ a.s5 ∷ a.s6 ∷ a.s7 ∷ []

-- `to_ipv4_mapped` is `Some`
unfoldable pub is_ipv4_mapped : Ipv6 → Bool
is_ipv4_mapped a = a.s0 == 0 && a.s1 == 0 && a.s2 == 0 && a.s3 == 0 && a.s4 == 0 && a.s5 == 0xffff

unfoldable pub show_ipv6 : Ipv6 → Str
unfolding show_ipv4 show_hex join_hex longest_zeros take drop is_ipv4_mapped
show_ipv6 a =
    let none_yet : Span = record { start = 0; size = 0 } in
    let longest = longest_zeros 0 none_yet none_yet (segments a) in
    let low : Ipv4 = record {
      o0 = a.s6 / 256;
      o1 = a.s6 % 256;
      o2 = a.s7 / 256;
      o3 = a.s7 % 256;
    } in
    if is_ipv4_mapped a
    then codes "::ffff:" ++ show_ipv4 low
    else if ltb 1 longest.size
    then join_hex (take longest.start (segments a))
      ++ (codes "::" ++ join_hex (drop (longest.start + longest.size) (segments a)))
    else join_hex (segments a)

unfoldable pub show_ip : IpAddr → Str
unfolding show_ipv4 show_ipv6
show_ip (v4 a) = show_ipv4 a
show_ip (v6 a) = show_ipv6 a
