-- ===== src/Ip/RoundTrip/Mapped.antt =====
-- IPv6 addresses that are printed with an IPv4 address at the end.
use mathlib.Core.List.{append-nil}
use rust_whois.Prelude.{◌+◌, ◌*◌, ◌/◌, ◌%◌, ◌≡◌, refl, sym, ap, ◌∙◌, true, [], ◌∷◌, ◌++◌, arith}
use rust_whois.Text.{codes}
use rust_whois.Ip.Addr.{Ipv4, Ipv6, IsBytes}
use rust_whois.Ip.Parse.{read_groups, read_given_char, read_ipv4}
use rust_whois.Ip.Show.{segments, is_ipv4_mapped, show_hex, show_ipv4}
use rust_whois.Ip.RoundTrip.{read_ipv4-show_ipv4}
use rust_whois.Ip.RoundTrip.NoQuad.{NoQuad-colon}
use rust_whois.Ip.RoundTrip.Groups.{read_groups-∷, NoHex-colon}

-- A text that ends in an IPv4 address.
read_groups-quad :
    (q : Ipv4)
    → IsBytes q
    → read_groups 6 1 (b':' ∷ show_ipv4 q) ≡ record {
      groups = (q.o0 * 256 + q.o1) ∷ (q.o2 * 256 + q.o3) ∷ [];
      ends_in_ipv4 = true;
      rest = [];
    }
unfolding read_groups read_given_char
read_groups-quad q h =
    let e = ap read_ipv4 (sym (append-nil (show_ipv4 q))) ∙ read_ipv4-show_ipv4 q [] h tt in
    rw (read_groups, e) refl

pub read_groups-mapped :
    (q : Ipv4)
    → IsBytes q
    → read_groups 7 0 (codes "ffff:" ++ show_ipv4 q) ≡ record {
      groups = 65535 ∷ (q.o0 * 256 + q.o1) ∷ (q.o2 * 256 + q.o3) ∷ [];
      ends_in_ipv4 = true;
      rest = [];
    }
unfolding show_hex
read_groups-mapped q h =
    read_groups-∷ 6 0 65535 (b':' ∷ show_ipv4 q) _ (omega arith) (NoHex-colon (show_ipv4 q))
      (NoQuad-colon (show_ipv4 q)) (read_groups-quad q h)

pub mapped_segments :
    (a : Ipv6)
    → is_ipv4_mapped a ≡ true
    → 0
        ∷ 0
        ∷ 0
        ∷ 0
        ∷ 0
        ∷ 65535
        ∷ (a.s6 / 256 * 256 + a.s6 % 256)
        ∷ (a.s7 / 256 * 256 + a.s7 % 256)
        ∷ []
      ≡ segments a
unfolding is_ipv4_mapped
mapped_segments a mapped =
    let e0 : a.s0 ≡ 0 = ground arith in
    let e1 : a.s1 ≡ 0 = ground arith in
    let e2 : a.s2 ≡ 0 = ground arith in
    let e3 : a.s3 ≡ 0 = ground arith in
    let e4 : a.s4 ≡ 0 = ground arith in
    let e5 : a.s5 ≡ 65535 = ground arith in
    let e6 : a.s6 / 256 * 256 + a.s6 % 256 ≡ a.s6 = omega arith in
    let e7 : a.s7 / 256 * 256 + a.s7 % 256 ≡ a.s7 = omega arith in
    rw (e0, e1, e2, e3, e4, e5, e6, e7) refl
