-- ===== src/Client/Query/Reasons.antt =====
-- src/lib.rs: the errors of `ValidatedQuery::new`.
use rust_whois.Prelude.{◌≡◌, subst, ◌||◌, if_rule, arith}
use rust_whois.Text.{Str, CaseMap, trim, trim_end_matches, to_lowercase}
use rust_whois.Error.{WhoisError, invalid_domain, invalid_ip_address, Result, ok, err}
use rust_whois.Ip.Validated
use rust_whois.Ip.Validated.{ValidatedIpAddress}
use rust_whois.Client.Query.{
  DnsParser, ip_address, checked, new_domain, as_domain, looks_like_ipv4, looks_like_ipv6,
  new_otherwise, new_query,
}

-- An error of the client's own making.
abbrev pub IsInvalid : WhoisError → Type 0
IsInvalid (invalid_domain s) = Unit
IsInvalid (invalid_ip_address s) = Unit
IsInvalid _ = ⊥

abbrev OnlyInvalid : {A : Type 0} → Result A → Type 0
OnlyInvalid (ok a) = Unit
OnlyInvalid (err e) = IsInvalid e

checked-OnlyInvalid : (p : DnsParser) (d : Str) → OnlyInvalid (checked p d)
unfolding checked
checked-OnlyInvalid p d = ground arith

as_domain-OnlyInvalid : (r : Result Str) → OnlyInvalid r → OnlyInvalid (as_domain r)
as_domain-OnlyInvalid (ok d) h = tt
as_domain-OnlyInvalid (err e) h = h

new_domain-OnlyInvalid :
    (m : CaseMap) (p : DnsParser) (text : Str) → OnlyInvalid (new_domain m p text)
unfolding new_domain
new_domain-OnlyInvalid m p text =
    checked-OnlyInvalid p (to_lowercase m (trim_end_matches (trim text) b'.'))

new_otherwise-OnlyInvalid :
    (m : CaseMap) (p : DnsParser) (text : Str) → OnlyInvalid (new_otherwise m p text)
unfolding new_otherwise
new_otherwise-OnlyInvalid m p text =
    if_rule OnlyInvalid (looks_like_ipv4 text || looks_like_ipv6 text) _ _ (λ _. tt)
      (λ _. as_domain-OnlyInvalid (new_domain m p text) (new_domain-OnlyInvalid m p text))

new_query-OnlyInvalid :
    (m : CaseMap) (p : DnsParser) (input : Str) → OnlyInvalid (new_query m p input)
unfolding new_query
new_query-OnlyInvalid m p input = go (Validated.new (trim input))
  where
    go :
        (r : Result ValidatedIpAddress)
        → OnlyInvalid
            (elim r [ ok ip ↦ ok (ip_address ip) | err e ↦ new_otherwise m p (trim input) ])
    go (ok ip) = tt
    go (err e) = new_otherwise-OnlyInvalid m p (trim input)

pub new_query-IsInvalid :
    (m : CaseMap) (p : DnsParser) (input : Str) (e : WhoisError)
    → new_query m p input ≡ err e
    → IsInvalid e
new_query-IsInvalid m p input e refused =
    subst OnlyInvalid refused (new_query-OnlyInvalid m p input)
