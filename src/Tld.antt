-- ===== src/Tld.antt =====
-- src/tld.rs: the top-level domain of a name. The public suffix list of the crate `psl` is a
-- parameter: the suffix it finds, and inside it `none` where its bytes are not UTF-8.
use rust_whois.Prelude.{List, [], ◌∷◌, ◌++◌, Option, none, some}
use rust_whois.Text.{Str, CaseMap, codes, split, last, to_lowercase}
use rust_whois.Error.{invalid_domain, Result, ok, err}

abbrev pub Psl : Type 0
Psl = Str → Option (Option Str)

-- `unwrap_or`
abbrev pub or_default : Option Str → Str → Str
or_default none d = d
or_default (some s) d = s

-- The fallback, on the parts between dots.
abbrev pub last_part : Str → List Str → Result Str
last_part domain [] = err (invalid_domain (codes "No TLD found in domain: " ++ domain))
last_part domain (part ∷ []) = err (invalid_domain (codes "No TLD found in domain: " ++ domain))
last_part domain (part ∷ next ∷ parts) = ok (or_default (last (next ∷ parts)) part)

unfoldable pub extract_tld : Psl → Str → Result Str
extract_tld suffix domain = elim (suffix domain) [
  | some o ↦ elim o [
    | some tld ↦ ok tld
    | none ↦ err (invalid_domain (codes "Invalid UTF-8 in TLD for domain: " ++ domain))
  ]
  | none ↦ last_part domain (split domain b'.')
]

unfoldable pub extract_tld_simple : CaseMap → Str → Str
extract_tld_simple m domain =
    to_lowercase m (or_default (last (split domain b'.')) (codes "unknown"))
