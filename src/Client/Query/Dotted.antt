-- ===== src/Client/Query/Dotted.antt =====
-- src/lib.rs and src/tld.rs: the top-level domain of a query that is taken for a domain.
use rust_whois.Prelude.{
  ℕ, ◌≡◌, ◌≢◌, refl, true, List, [], ◌∷◌, Option, none, some, ◌==◌, arith, Bool-cases, ◌⊎◌, inl,
  inr, subst,
}
use rust_whois.Text.{Str, CaseMap, trim, contains_char, split, last}
use rust_whois.Error.{ok}
use rust_whois.Tld.{Psl, last_part, extract_tld}
use rust_whois.Client.Query.{DnsParser, domain, new_query}
use rust_whois.Client.Query.Accepted.{Detected, new_query-Detected}

last-some : (part : Str) (parts : List Str) → (tld : Str) × (last (part ∷ parts) ≡ some tld)
unfolding last
last-some part [] = (part, refl)
last-some part (next ∷ parts) = last-some next parts

split-∷ : (s : Str) (c : ℕ) → (part : Str) × (parts : List Str) × (split s c ≡ part ∷ parts)
unfolding split
split-∷ [] c = ([], [], refl)
split-∷ (x ∷ s) c =
    let (part, parts, e) = split-∷ s c in
    elim (Bool-cases (x == c)) [
      | inl here ↦ rw (here, e) ([], part ∷ parts, refl)
      | inr other ↦ rw (other, e) (x ∷ part, parts, refl)
    ]

split-dotted :
    (s : Str) (c : ℕ)
    → contains_char s c ≡ true
    → (part next : Str) × (parts : List Str) × (split s c ≡ part ∷ next ∷ parts)
unfolding split contains_char
split-dotted [] c h = cc
split-dotted (x ∷ s) c h = elim (Bool-cases (x == c)) [
  | inl here ↦ let (part, parts, e) = split-∷ s c in rw (here, e) ([], part, parts, refl)
  | inr other ↦
      let (part, next, parts, e) = split-dotted s c (ground arith) in
      rw (other, e) (x ∷ part, next, parts, refl)
]

last_part-ok :
    (d : Str) (parts : List Str) (part next : Str) (rest : List Str)
    → parts ≡ part ∷ next ∷ rest
    → (tld : Str) × (last_part d parts ≡ ok tld) × (last parts ≡ some tld)
unfolding last
last_part-ok d parts part next rest e =
    let (tld, is_last) = last-some next rest in rw (e, is_last) (tld, refl, refl)

-- The suffix that the list has for the name, or else the name's last label.
abbrev pub IsTld : Psl → Str → Str → Type 0
IsTld suffix d tld =
    (suffix d ≡ some (some tld)) ⊎ ((suffix d ≡ none) × (last (split d b'.') ≡ some tld))

extract_tld-dotted :
    (suffix : Psl) (d : Str)
    → contains_char d b'.' ≡ true
    → suffix d ≢ some none
    → (tld : Str) × (extract_tld suffix d ≡ ok tld) × IsTld suffix d tld
unfolding extract_tld
extract_tld-dotted suffix d dotted readable = go (suffix d) refl
  where
    go :
        (o : Option (Option Str))
        → suffix d ≡ o
        → (tld : Str) × (extract_tld suffix d ≡ ok tld) × IsTld suffix d tld
    go none e =
        let (part, next, rest, parts) = split-dotted d b'.' dotted in
        let (tld, found, is_last) = last_part-ok d (split d b'.') part next rest parts in
        (tld, rw (extract_tld, e) found, inr (e, is_last))
    go (some none) e = elim (readable e) [ ]
    go (some (some tld)) e = (tld, rw (extract_tld, e) refl, inl e)

-- Whatever text is taken for a domain has a top-level domain, whose lookup in the public suffix list
-- does not fail as long as the suffix that the list finds is readable: the suffix, or the last label of
-- a domain that the list has no suffix for.
pub extract_tld-new_query :
    (m : CaseMap) (p : DnsParser) (suffix : Psl) (input d : Str)
    → new_query m p input ≡ ok (domain d)
    → suffix d ≢ some none
    → (tld : Str) × (extract_tld suffix d ≡ ok tld) × IsTld suffix d tld
extract_tld-new_query m p suffix input d taken readable =
    let (rejected, other, is_domain) =
      subst (Detected m p (trim input)) taken (new_query-Detected m p input) in
    extract_tld-dotted suffix d is_domain.1 readable
