-- ===== src/Ip/Special.antt =====
-- `is_private_or_special`, with the tests of `std::net` that it calls.
use Prim.Native.Nat.{bit_and}
use rust_whois.Prelude.{Bool, ◌&&◌, ◌||◌, leb, ◌==◌}
use rust_whois.Ip.Addr.{Ipv4, Ipv6, IpAddr, v4, v6}

abbrev is_private : Ipv4 → Bool
is_private a =
    a.o0 == 10 || (a.o0 == 172 && leb 16 a.o1 && leb a.o1 31) || (a.o0 == 192 && a.o1 == 168)

abbrev is_loopback : Ipv4 → Bool
is_loopback a = a.o0 == 127

abbrev is_link_local : Ipv4 → Bool
is_link_local a = a.o0 == 169 && a.o1 == 254

abbrev is_documentation : Ipv4 → Bool
is_documentation a =
    (a.o0 == 192 && a.o1 == 0 && a.o2 == 2)
    || (a.o0 == 198 && a.o1 == 51 && a.o2 == 100)
    || (a.o0 == 203 && a.o1 == 0 && a.o2 == 113)

abbrev is_broadcast : Ipv4 → Bool
is_broadcast a = a.o0 == 255 && a.o1 == 255 && a.o2 == 255 && a.o3 == 255

abbrev is_multicast : Ipv4 → Bool
is_multicast a = leb 224 a.o0 && leb a.o0 239

abbrev is_unspecified : Ipv4 → Bool
is_unspecified a = a.o0 == 0 && a.o1 == 0 && a.o2 == 0 && a.o3 == 0

abbrev pub is_zero_but_last : Ipv6 → Bool
is_zero_but_last a =
    a.s0 == 0 && a.s1 == 0 && a.s2 == 0 && a.s3 == 0 && a.s4 == 0 && a.s5 == 0 && a.s6 == 0

unfoldable pub is_private_or_special : IpAddr → Bool
is_private_or_special (v4 a) =
    is_private a
    || is_loopback a
    || is_link_local a
    || is_documentation a
    || is_broadcast a
    || is_multicast a
    || is_unspecified a
    || (a.o0 == 100 && bit_and a.o1 0xC0 == 64)
    || leb 240 a.o0
    || (a.o0 == 198 && bit_and a.o1 0xFE == 18)
is_private_or_special (v6 a) =
    (is_zero_but_last a && a.s7 == 1)
    || bit_and a.s0 0xff00 == 0xff00
    || (is_zero_but_last a && a.s7 == 0)
    || bit_and a.s0 0xfe00 == 0xfc00
    || bit_and a.s0 0xffc0 == 0xfe80
    || (a.s0 == 0x2001 && a.s1 == 0x0db8)
