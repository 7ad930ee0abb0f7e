-- ===== src/Client/Query.antt =====
-- src/lib.rs: `ValidatedDomain` and `ValidatedQuery`. The crate `addr` is a parameter: the text of
-- its error, or `none` for a name that it accepts.
pub mod Accepted
pub mod Dotted
pub mod Reasons
use rust_whois.Prelude.{
  ℕ, Bool, true, false, not, ◌&&◌, ◌||◌, List, [], ◌∷◌, ◌++◌, Option, none, some, if◌then◌else◌,
  ◌==◌, leb, all,
}
use rust_whois.Text.{
  Str, CaseMap, codes, contains_any, contains_char, to_lowercase, trim, trim_end_matches,
}
use rust_whois.Error.{WhoisError, invalid_domain, invalid_ip_address, Result, ok, err}
use rust_whois.Ip.Validated
use rust_whois.Ip.Validated.{ValidatedIpAddress}

abbrev pub DnsParser : Type 0
DnsParser = Str → Option Str

-- The characters of URL syntax that are refused.
abbrev pub url_syntax : List ℕ
url_syntax = codes "/:?#@ "

unfoldable pub is_empty : Str → Bool
is_empty [] = true
is_empty (c ∷ s) = false

-- The checks of `ValidatedDomain::new`, on the normalized text.
unfoldable pub checked : DnsParser → Str → Result Str
unfolding is_empty contains_char contains_any
checked parse_dns_name domain =
    if is_empty domain
    then err (invalid_domain (codes "Empty domain"))
    else if not (contains_char domain b'.')
    then err (invalid_domain (codes "Domain must contain at least one dot"))
    else if contains_any domain url_syntax
    then err (
        invalid_domain (
          codes "Domain contains URL syntax or invalid characters: "
          ++ domain
          ++ codes " (pass a bare hostname)"))
    else elim (parse_dns_name domain) [
      | none ↦ ok domain
      | some e ↦ err (invalid_domain (domain ++ codes " (" ++ e ++ codes ")"))
    ]

-- `ValidatedDomain::new`, which holds the text that it accepts
unfoldable pub new_domain : CaseMap → DnsParser → Str → Result Str
unfolding to_lowercase trim trim_end_matches checked
new_domain m parse_dns_name text =
    checked parse_dns_name (to_lowercase m (trim_end_matches (trim text) b'.'))

pub data DetectedQueryType : Type 0 where
  domain : Str → DetectedQueryType
  ip_address : ValidatedIpAddress → DetectedQueryType

abbrev is_ascii_digit : ℕ → Bool
is_ascii_digit c = leb b'0' c && leb c b'9'

abbrev is_ascii_hexdigit : ℕ → Bool
is_ascii_hexdigit c = is_ascii_digit c || (leb b'A' c && leb c b'F') || (leb b'a' c && leb c b'f')

unfoldable pub looks_like_ipv4 : Str → Bool
unfolding contains_char
looks_like_ipv4 s = contains_char s b'.' && all (λ c. is_ascii_digit c || (c == b'.')) s

unfoldable pub looks_like_ipv6 : Str → Bool
unfolding contains_char
looks_like_ipv6 s =
    contains_char s b':' && all (λ c. is_ascii_hexdigit c || (c == b':') || (c == b'.')) s

abbrev pub as_domain : Result Str → Result DetectedQueryType
as_domain (err e) = err e
as_domain (ok d) = ok (domain d)

-- What follows a text that is no IP address.
unfoldable pub new_otherwise : CaseMap → DnsParser → Str → Result DetectedQueryType
unfolding looks_like_ipv4 looks_like_ipv6 new_domain
new_otherwise m parse_dns_name trimmed =
    if looks_like_ipv4 trimmed || looks_like_ipv6 trimmed
    then err (invalid_ip_address trimmed)
    else as_domain (new_domain m parse_dns_name trimmed)

-- `ValidatedQuery::new`
unfoldable pub new_query : CaseMap → DnsParser → Str → Result DetectedQueryType
unfolding trim Validated.new new_otherwise
new_query m parse_dns_name input =
    let trimmed = trim input in
    elim (Validated.new trimmed) [
      | ok ip ↦ ok (ip_address ip)
      | err e ↦ new_otherwise m parse_dns_name trimmed
    ]

-- `is_ip` and `into_inner`
abbrev pub is_ip : DetectedQueryType → Bool
is_ip (domain d) = false
is_ip (ip_address ip) = true

abbrev pub into_inner : DetectedQueryType → Str
into_inner (domain d) = d
into_inner (ip_address ip) = ip.normalized
