-- ===== src/Ip/Tests.antt =====
-- Runs of the address code on the inputs of the source's own tests.
use rust_whois.Prelude.{◌≡◌, refl, Option, none, some, is_some, true}
use mathlib.Core.Option
use rust_whois.Text.{Str, codes}
use rust_whois.Ip.{parse_ip, show_ip, rir_database}

abbrev normal : Str → Option Str
normal s = Option.map show_ip (parse_ip s)

normal_v6 : normal (codes "2001:0db8:0000:0000:0000:0000:0000:0001") ≡ some (codes "2001:db8::1")
unfolding show_ip parse_ip
normal_v6 = refl

normal_v6_gap : normal (codes "2001:0db8:0001::1") ≡ some (codes "2001:db8:1::1")
unfolding show_ip parse_ip
normal_v6_gap = refl

normal_mapped : normal (codes "::ffff:10.0.0.1") ≡ some (codes "::ffff:10.0.0.1")
unfolding show_ip parse_ip
normal_mapped = refl

normal_zero : normal (codes "::") ≡ some (codes "::")
unfolding show_ip parse_ip
normal_zero = refl

normal_v4 : normal (codes "192.0.2.1") ≡ some (codes "192.0.2.1")
unfolding show_ip parse_ip
normal_v4 = refl

refused_256 : parse_ip (codes "256.1.1.1") ≡ none
unfolding parse_ip
refused_256 = refl

refused_five : parse_ip (codes "1.1.1.1.1") ≡ none
unfolding parse_ip
refused_five = refl

refused_zero_prefix : parse_ip (codes "01.1.1.1") ≡ none
unfolding parse_ip
refused_zero_prefix = refl

refused_hex : parse_ip (codes "::gggg") ≡ none
unfolding parse_ip
refused_hex = refl

refused_two_gaps : parse_ip (codes "1::2::3") ≡ none
unfolding parse_ip
refused_two_gaps = refl

database_built : is_some rir_database ≡ true
unfolding rir_database
database_built = refl
