-- ===== src/Ip/Validated.antt =====
-- `ValidatedIpAddress` and `detect_rir`.
use mathlib.Core.Bool.{false≢true}
use rust_whois.Prelude.{
  Bool, true, false, Option, none, some, ◌≡◌, refl, ◌++◌, is_some, if◌then◌else◌,
}
use rust_whois.Text.{Str, codes, trim}
use rust_whois.Error.{Result, ok, err, WhoisError, invalid_ip_address, unsupported_ip_address}
use rust_whois.Ip.Addr.{IpAddr, v4, v6}
use rust_whois.Ip.Parse.{parse_ip}
use rust_whois.Ip.Show.{show_ip}
use rust_whois.Ip.Special.{is_private_or_special}
use rust_whois.Ip.Table.{Rir, arin, RirDatabase, rir_database, search_database}

pub record ValidatedIpAddress : Type 0 where
  pub addr : IpAddr
  pub normalized : Str

abbrev validated : Str → Option IpAddr → Result ValidatedIpAddress
validated ip_str none = err (invalid_ip_address ip_str)
validated ip_str (some addr) = ok (record { addr = addr; normalized = show_ip addr })

-- `ValidatedIpAddress::new`
unfoldable pub new : Str → Result ValidatedIpAddress
unfolding trim
new ip = let ip_str = trim ip in validated ip_str (parse_ip ip_str)

abbrev pub as_str : ValidatedIpAddress → Str
as_str ip = ip.normalized

unfoldable pub is_ipv4 : ValidatedIpAddress → Bool
is_ipv4 ip = elim ip.addr [ v4 a ↦ true | v6 a ↦ false ]

unfoldable pub is_ipv6 : ValidatedIpAddress → Bool
is_ipv6 ip = elim ip.addr [ v4 a ↦ false | v6 a ↦ true ]

pub database_built : is_some rir_database ≡ true
unfolding rir_database
database_built = refl

abbrev unwrap {ℓ} : {A : Type ℓ} (o : Option A) → is_some o ≡ true → A
unwrap none h = absurd (false≢true h)
unwrap (some a) h = a

-- The static `RIR_DB`: no row of `RirDatabase::new` panics.
unfoldable pub rir_db : RirDatabase
unfolding rir_database
rir_db = unwrap rir_database database_built

abbrev or_arin : Option Rir → Rir
or_arin none = arin
or_arin (some rir) = rir

abbrev pub refused : ValidatedIpAddress → WhoisError
refused ip =
    unsupported_ip_address
      (codes "IP address " ++ (as_str ip ++ codes " is in a private or special-use range"))

-- `detect_rir`
unfoldable pub detect_rir : ValidatedIpAddress → Result Rir
detect_rir ip =
    if is_private_or_special ip.addr
    then err (refused ip)
    else ok (or_arin (search_database rir_db ip.addr))
