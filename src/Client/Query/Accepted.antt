-- ===== src/Client/Query/Accepted.antt =====
-- src/lib.rs: how `ValidatedQuery::new` takes a text.
use rust_whois.Prelude.{
  ◌≡◌, ◌≢◌, refl, sym, subst, if_rule, true, false, ◌||◌, [], ◌∷◌, none, arith, All,
}
use rust_whois.Text.{
  Str, CaseMap, contains_any, contains_char, to_lowercase, trim, trim_end_matches,
}
use rust_whois.Error.{Result, ok, err}
use rust_whois.Ip.Validated
use rust_whois.Ip.Validated.{ValidatedIpAddress}
use rust_whois.Client.Query.{
  DnsParser, DetectedQueryType, domain, ip_address, url_syntax, checked, new_domain,
  looks_like_ipv4, looks_like_ipv6, as_domain, new_otherwise, new_query,
}

-- No blank and no character that separates the parts of a URL.
abbrev pub Bare : Str → Type 0
Bare = All (λ c. (c ≢ b'/') × (c ≢ b':') × (c ≢ b'?') × (c ≢ b'#') × (c ≢ b'@') × (c ≢ b' '))

abbrev pub Rejected : {A : Type 0} → Result A → Type 0
Rejected (ok a) = ⊥
Rejected (err e) = Unit

Bare-contains_any : (s : Str) → contains_any s url_syntax ≡ false → Bare s
unfolding contains_any
Bare-contains_any [] h = tt
Bare-contains_any (c ∷ s) h = (ground arith, Bare-contains_any s (ground arith))

-- The text in its normal form: with a dot, bare, and one that the parser of names accepts.
abbrev pub IsDomain : CaseMap → DnsParser → Str → Str → Type 0
IsDomain m parse_dns_name input d =
    (d ≡ to_lowercase m (trim_end_matches (trim input) b'.'))
    × (contains_char d b'.' ≡ true)
    × Bare d
    × (parse_dns_name d ≡ none)

checked-eq-ok :
    (p : DnsParser) (n d : Str)
    → checked p n ≡ ok d
    → (d ≡ n) × (contains_char d b'.' ≡ true) × (contains_any d url_syntax ≡ false) × (p d ≡ none)
unfolding checked
checked-eq-ok p n d e = ground arith

new_domain-IsDomain :
    (m : CaseMap) (p : DnsParser) (text d : Str) → new_domain m p text ≡ ok d → IsDomain m p text d
unfolding new_domain
new_domain-IsDomain m p text d e =
    let (same, dotted, plain, parsed) = checked-eq-ok p _ d e in
    (same, dotted, Bare-contains_any d plain, parsed)

-- How a text is taken: as an address only if it is one; as a domain only if it is none and does
-- not look like one, and is a bare name in its normal form.
abbrev pub Detected : CaseMap → DnsParser → Str → Result DetectedQueryType → Type 0
Detected m p trimmed (err e) = Rejected (Validated.new trimmed)
Detected m p trimmed (ok (ip_address ip)) = Validated.new trimmed ≡ ok ip
Detected m p trimmed (ok (domain d)) =
    Rejected (Validated.new trimmed)
    × ((looks_like_ipv4 trimmed || looks_like_ipv6 trimmed) ≡ false)
    × IsDomain m p trimmed d

module _ (m : CaseMap) (p : DnsParser) (trimmed : Str) where
  as_domain-Detected :
      (r : Result Str)
      → Rejected (Validated.new trimmed)
      → (looks_like_ipv4 trimmed || looks_like_ipv6 trimmed) ≡ false
      → new_domain m p trimmed ≡ r
      → Detected m p trimmed (as_domain r)
  as_domain-Detected (ok d) rejected other e =
      (rejected, other, new_domain-IsDomain m p trimmed d e)
  as_domain-Detected (err e) rejected other _ = rejected

  new_otherwise-Detected :
      Rejected (Validated.new trimmed) → Detected m p trimmed (new_otherwise m p trimmed)
  unfolding new_otherwise
  new_otherwise-Detected rejected =
      if_rule (Detected m p trimmed) (looks_like_ipv4 trimmed || looks_like_ipv6 trimmed) _ _
        (λ _. rejected) (λ other. as_domain-Detected (new_domain m p trimmed) rejected other refl)

-- A query is taken for an address only if it parses as one, and for a domain only if it does not,
-- nor looks like one; the domain is then the text trimmed, without trailing dots and in lower
-- case, has a dot and no blank or URL syntax, and passes the parser of names. A query that is an
-- address is never refused.
pub new_query-Detected :
    (m : CaseMap) (p : DnsParser) (input : Str) → Detected m p (trim input) (new_query m p input)
unfolding new_query
new_query-Detected m p input = go (Validated.new (trim input)) refl
  where
    go :
        (r : Result ValidatedIpAddress)
        → Validated.new (trim input) ≡ r
        → Detected m p
            (trim input)
            (elim r [ ok ip ↦ ok (ip_address ip) | err e ↦ new_otherwise m p (trim input) ])
    go (ok ip) e = e
    go (err reason) e = new_otherwise-Detected m p (trim input) (subst Rejected (sym e) tt)
