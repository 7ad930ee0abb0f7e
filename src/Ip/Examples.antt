-- ===== src/Ip/Examples.antt =====
-- The address code, run on an address of the first row of the tables and on an IPv6 address.
use mathlib.Core.List.{Memᴰ}
use rust_whois.Prelude.{◌≡◌, refl, false, arith}
use rust_whois.Text.{codes, is_whitespace}
use rust_whois.Error.{ok}
use rust_whois.Ip.Addr.{Ipv4, v4, v6}
use rust_whois.Ip.Parse.{parse_ip}
use rust_whois.Ip.Show.{show_ip}
use rust_whois.Ip.Special.{is_private_or_special}
use rust_whois.Ip.Table.{arin, in_range}
use rust_whois.Ip.Validated.{ValidatedIpAddress, new, as_str, rir_db, detect_rir}
use rust_whois.Ip.Tables.{Covers, table_of, number_of, detect_rir-Covers}
use rust_whois.Ip.Blocks.{ipv4_mapped, is_private_or_special-ipv4_mapped}
use rust_whois.Ip.Addr.{Ipv6, IsWords}
use rust_whois.Ip.Blocks.Both.{in_special_block, is_private_or_special-in_special_block}
use rust_whois.Ip.Normalize.{new-as_str}

abbrev address : Ipv4
address = record { o0 = 3; o1 = 7; o2 = 200; o3 = 255 }

abbrev validated : ValidatedIpAddress
validated = record { addr = v4 address; normalized = codes "3.7.200.255" }

public : is_private_or_special (v4 address) ≡ false
unfolding is_private_or_special
public = refl

covered : Covers (table_of (v4 address)) (number_of (v4 address)) arin
unfolding rir_db in_range
covered = (_, Memᴰ.head refl, refl)

detect_rir-Covers_example : detect_rir validated ≡ ok arin
detect_rir-Covers_example = detect_rir-Covers validated arin public covered

is_private_or_special-ipv4_mapped_example : is_private_or_special (v6 (ipv4_mapped address)) ≡ false
is_private_or_special-ipv4_mapped_example = is_private_or_special-ipv4_mapped address

abbrev validated_v6 : ValidatedIpAddress
validated_v6 = record {
  addr = v6 (record { s0 = 0x2001; s1 = 0xdb8; s2 = 0; s3 = 7; s4 = 0; s5 = 0; s6 = 0; s7 = 1 });
  normalized = codes "2001:db8:0:7::1";
}

accepted : new (codes " 2001:0DB8:0:7:0::1 ") ≡ ok validated_v6
unfolding new parse_ip show_ip is_whitespace
accepted = refl

new-as_str_example : new (as_str validated_v6) ≡ ok validated_v6
new-as_str_example = new-as_str (codes " 2001:0DB8:0:7:0::1 ") validated_v6 accepted

abbrev link_local : Ipv6
link_local = record { s0 = 0xfe80; s1 = 0; s2 = 0; s3 = 0; s4 = 0; s5 = 0; s6 = 0; s7 = 1 }

link_local-IsWords : IsWords link_local
link_local-IsWords = record {
  w0 = omega arith;
  w1 = omega arith;
  w2 = omega arith;
  w3 = omega arith;
  w4 = omega arith;
  w5 = omega arith;
  w6 = omega arith;
  w7 = omega arith;
}

is_private_or_special-in_special_block_example :
    is_private_or_special (v6 link_local) ≡ in_special_block (v6 link_local)
is_private_or_special-in_special_block_example =
    is_private_or_special-in_special_block (v6 link_local) link_local-IsWords
