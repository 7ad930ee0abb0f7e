-- ===== src/Whois/Referral.antt =====
-- Reading a referral out of a response.
pub mod Host
use rust_whois.Prelude.{
  ℕ, ◌-◌, Bool, ◌&&◌, ◌||◌, List, [], ◌∷◌, ◌++◌, Option, none, some, if◌then◌else◌, ◌==◌,
}
use rust_whois.Text.{
  Str, codes, str_eq, starts_with, strip_suffix, len, CaseMap, contains, contains_any, split_once,
  split, to_lowercase, trim, lines,
}

-- `unwrap_or`
abbrev or_default : Option Str → Str → Str
or_default none d = d
or_default (some s) d = s

-- `&s[n..]`, an index in bytes. Rust panics where a character spans the index; this goes on behind
-- that character.
unfoldable pub slice_from : Str → ℕ → Str
unfolding len
slice_from [] n = []
slice_from (c ∷ s) n = if n == 0 then c ∷ s else slice_from s (n - len (c ∷ []))

-- `host.is_empty() || host.contains([':', '/', ' '])` fails
unfoldable pub plain_host : Str → Option Str
plain_host [] = none
plain_host (c ∷ s) = if contains_any (c ∷ s) (b':' ∷ b'/' ∷ b' ' ∷ []) then none else some (c ∷ s)

unfoldable pub sanitize_referral_value : CaseMap → Str → Option Str
sanitize_referral_value m [] = none
sanitize_referral_value m value =
    let lower = to_lowercase m value in
    let host = if starts_with lower (codes "whois://") then slice_from value 8 else value in
    let host' = or_default (strip_suffix host (codes "/")) host in
    let host'' = or_default (strip_suffix host' (codes ":43")) host' in
    if starts_with lower (codes "rwhois://") then none else plain_host host''

-- `is_referral_key`
unfoldable pub is_referral_key : Str → Bool
is_referral_key key =
    (contains key (codes "whois") && contains key (codes "server"))
    || str_eq key (codes "refer")
    || str_eq key (codes "referralserver")

-- One round of the loop of `extract_whois_server`.
unfoldable pub referral_of_line : CaseMap → Str → Option Str
referral_of_line m raw = elim (split_once (trim raw) b':') [
  | none ↦ none
  | some (key, value) ↦
      if is_referral_key (to_lowercase m (trim key))
      then sanitize_referral_value m (trim value)
      else none
]

unfoldable pub first_referral : CaseMap → List Str → Option Str
first_referral m [] = none
first_referral m (line ∷ ls) = elim (referral_of_line m line) [
  | some server ↦ some server
  | none ↦ first_referral m ls
]

unfoldable pub extract_whois_server : CaseMap → Str → Option Str
unfolding first_referral
extract_whois_server m text = first_referral m (lines text)

abbrev second : List Str → Option Str
second (a ∷ b ∷ rest) = some b
second _ = none

abbrev non_empty : Str → Option Str
non_empty [] = none
non_empty (c ∷ s) = some (c ∷ s)

unfoldable pub extract_server_after_colon : Str → Option Str
extract_server_after_colon line = elim (second (split line b':')) [
  | none ↦ none
  | some server ↦ non_empty (trim server)
]

unfoldable pub extract_server_from_line : CaseMap → Str → Option Str
unfolding extract_server_after_colon
extract_server_from_line m line =
    let line_lower = to_lowercase m line in
    if starts_with line_lower (codes "whois:")
    then extract_server_after_colon line
    else if starts_with line_lower (codes "refer:")
    then extract_server_after_colon line
    else if contains line_lower (codes "whois server:")
    then extract_server_after_colon line
    else none

unfoldable pub first_server : CaseMap → List Str → Option Str
first_server m [] = none
first_server m (line ∷ ls) = elim (extract_server_from_line m (trim line)) [
  | some server ↦ some server
  | none ↦ first_server m ls
]

unfoldable pub parse_root_server_response : CaseMap → Str → Option Str
unfolding first_server
parse_root_server_response m response = elim (first_server m (lines response)) [
  | some server ↦ some server
  | none ↦ extract_whois_server m response
]

unfoldable pub generate_whois_patterns : Str → List Str
generate_whois_patterns tld =
    (codes "whois.nic." ++ tld)
    ∷ (if len tld == 2
        then (codes "whois." ++ tld)
          ∷ (codes "whois.domain." ++ tld)
          ∷ (codes "whois.registry." ++ tld)
          ∷ (codes "whois.dns." ++ tld)
          ∷ []
        else (codes "whois." ++ tld) ∷ (codes "whois.registry." ++ tld) ∷ [])
