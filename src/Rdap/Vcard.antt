-- ===== src/Rdap/Vcard.antt =====
-- src/rdap.rs: `extract_vcard_property` and the properties that are extracted.
pub mod Trimmed
use rust_whois.Prelude.{
  ℕ, Bool, true, false, List, [], ◌∷◌, ◌++◌, map, Option, none, some, if◌then◌else◌, or_else,
}
use rust_whois.Text.{Str, codes, str_eq, to_ascii_lowercase, trim}
use rust_whois.Rdap.Json.{Value, string, array, as_array, as_str, nth, and_then, strings}

-- `eq_ignore_ascii_case`
unfoldable pub eq_ignore_ascii_case : Str → Str → Bool
unfolding str_eq to_ascii_lowercase
eq_ignore_ascii_case a b = str_eq (map to_ascii_lowercase a) (map to_ascii_lowercase b)

-- `map(str::trim).filter(|s| !s.is_empty())`
unfoldable pub trimmed : List Str → List Str
trimmed [] = []
trimmed (s ∷ ss) = elim (trim s) [ [] ↦ trimmed ss | c ∷ t ↦ (c ∷ t) ∷ trimmed ss ]

-- `join(" ")`
unfoldable pub join : List Str → Str
join [] = []
join (s ∷ []) = s
join (s ∷ t ∷ ss) = s ++ (b' ' ∷ join (t ∷ ss))

abbrev pub unless_empty : Str → Option Str
unless_empty [] = none
unless_empty (c ∷ s) = some (c ∷ s)

-- The `match` on `fields.get(3)`; `none` where the loop goes on.
unfoldable pub text_of : Option Value → Option Str
unfolding trim trimmed join
text_of (some (string s)) = unless_empty (trim s)
text_of (some (array parts)) =
    and_then (as_array (array parts)) (λ vs. unless_empty (join (trimmed (strings vs))))
text_of _ = none

abbrev pub named : Str → List Value → Option Str
named property fields =
    and_then (and_then (nth fields 0) as_str)
      (λ name. if eq_ignore_ascii_case name property then text_of (nth fields 3) else none)

-- The loop over the entries.
unfoldable pub first_property : Str → List Value → Option Str
unfolding eq_ignore_ascii_case text_of
first_property property [] = none
first_property property (entry ∷ entries) =
    or_else (and_then (as_array entry) (named property)) (first_property property entries)

-- `vcard.as_array()?.get(1)?.as_array()?`
abbrev pub entries_of : Value → Option (List Value)
entries_of vcard = and_then (and_then (as_array vcard) (λ outer. nth outer 1)) as_array

unfoldable pub extract_vcard_property : Value → Str → Option Str
unfolding first_property
extract_vcard_property vcard property = and_then (entries_of vcard) (first_property property)

unfoldable pub extract_registrar_from_vcard : Value → Option Str
unfolding extract_vcard_property
extract_registrar_from_vcard vcard =
    or_else (extract_vcard_property vcard (codes "fn")) (extract_vcard_property vcard (codes "org"))

unfoldable pub extract_name_from_vcard : Value → Option Str
unfolding extract_vcard_property
extract_name_from_vcard vcard =
    or_else (extract_vcard_property vcard (codes "fn")) (extract_vcard_property vcard (codes "org"))

unfoldable pub extract_email_from_vcard : Value → Option Str
unfolding extract_vcard_property
extract_email_from_vcard vcard = extract_vcard_property vcard (codes "email")
