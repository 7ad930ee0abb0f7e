-- ===== src/Ip/Table/Base.antt =====
-- `Rir`, and ranges of addresses as numbers.
use mathlib.Core.Option
use rust_whois.Prelude.{ℕ, ◌+◌, ◌*◌, Bool, ◌&&◌, Option, none, some, leb, String}
use rust_whois.Text.{Str, codes}
use rust_whois.Ip.Addr.{Ipv4, Ipv6}
use rust_whois.Ip.Parse.{parse_ipv4, parse_ipv6}

pub data Rir : Type 0 where
  arin ripe apnic lacnic afrinic : Rir

unfoldable pub whois_server : Rir → Str
whois_server arin = codes "whois.arin.net"
whois_server ripe = codes "whois.ripe.net"
whois_server apnic = codes "whois.apnic.net"
whois_server lacnic = codes "whois.lacnic.net"
whois_server afrinic = codes "whois.afrinic.net"

unfoldable pub rdap_server : Rir → Str
rdap_server arin = codes "https://rdap.arin.net/registry"
rdap_server ripe = codes "https://rdap.db.ripe.net"
rdap_server apnic = codes "https://rdap.apnic.net"
rdap_server lacnic = codes "https://rdap.lacnic.net"
rdap_server afrinic = codes "https://rdap.afrinic.net/rdap"

-- `Ipv4Range` and `Ipv6Range`; `end` is a word of this language
pub record Range : Type 0 where
  pub start : ℕ
  pub stop : ℕ

-- `contains`
unfoldable pub in_range : Range → ℕ → Bool
in_range r ip = leb r.start ip && leb ip r.stop

unfoldable pub ipv4_to_u32 : Ipv4 → ℕ
ipv4_to_u32 a = ((a.o0 * 256 + a.o1) * 256 + a.o2) * 256 + a.o3

unfoldable pub ipv6_to_u128 : Ipv6 → ℕ
ipv6_to_u128 a =
    let w : ℕ = 65536 in
    ((((((a.s0 * w + a.s1) * w + a.s2) * w + a.s3) * w + a.s4) * w + a.s5) * w + a.s6) * w + a.s7

abbrev span : Option ℕ → Option ℕ → Option Range
span (some a) (some b) = some (record { start = a; stop = b })
span _ _ = none

-- `none` where `expect` panics
unfoldable pub ipv4_range : String → String → Option Range
unfolding parse_ipv4 ipv4_to_u32
ipv4_range a b =
    span (Option.map ipv4_to_u32 (parse_ipv4 (codes a)))
      (Option.map ipv4_to_u32 (parse_ipv4 (codes b)))

unfoldable pub ipv6_range : String → String → Option Range
unfolding parse_ipv6 ipv6_to_u128
ipv6_range a b =
    span (Option.map ipv6_to_u128 (parse_ipv6 (codes a)))
      (Option.map ipv6_to_u128 (parse_ipv6 (codes b)))

abbrev pub Row : Type 0
Row = Option (Range × Rir)

abbrev pub row : Option Range → Rir → Row
row none r = none
row (some range) r = some (range, r)
