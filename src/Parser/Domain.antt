-- ===== src/Parser/Domain.antt =====
-- `parse_whois_data`.
mod Arms
pub mod FirstWins
pub mod Clean
use rust_whois.Prelude.{
  Bool, true, false, not, ◌&&◌, ◌||◌, List, [], ◌∷◌, ◌++◌, Option, none, some, if◌then◌else◌,
  is_none, String,
}
use mathlib.Core.Option
use rust_whois.Text.{
  Str, codes, str_eq, starts_with, CaseMap, contains, contains_char, mem_str, to_lowercase, trim,
  split_once, lines, first_word,
}
use rust_whois.Data.{ParsedWhoisData, new}
use rust_whois.Parser.Match.{first_arm}
use rust_whois.Dates.{Chrono, Clock, calculate_age_fields}

-- A blank line or a comment, after trimming.
unfoldable pub is_skipped : Str → Bool
is_skipped [] = true
is_skipped line =
    starts_with line (codes "%") || starts_with line (codes "#") || starts_with line (codes ">>>")

-- A value that the three e-mail arms take.
unfoldable pub is_address : CaseMap → Str → Bool
is_address m value =
    contains_char value b'@' && not (contains (to_lowercase m value) (codes "select request"))

-- The guards of the arms, without the test that the field is still empty.
abbrev is_expiration : Str → Bool
is_expiration k = contains k (codes "expir") || contains k (codes "expires")

abbrev is_creation : Str → Bool
is_creation k =
    contains k (codes "creation") || contains k (codes "created") || str_eq k (codes "registered")

abbrev is_updated : Str → Bool
is_updated k =
    contains k (codes "updated")
    || contains k (codes "modified")
    || contains k (codes "last updated")

abbrev is_registrar : Str → Bool
is_registrar k =
    contains k (codes "registrar")
    && not (contains k (codes "whois"))
    && not (contains k (codes "url"))
    && not (contains k (codes "abuse"))
    && not (contains k (codes "expir"))
    && not (contains k (codes "registration"))

abbrev is_name_server : Str → Bool
is_name_server k =
    contains k (codes "name server") || str_eq k (codes "nserver") || str_eq k (codes "ns")

abbrev is_status : Str → Bool
is_status k = contains k (codes "status") || str_eq k (codes "state")

abbrev is_registrant_name : Str → Bool
is_registrant_name k =
    starts_with k (codes "registrant")
    && (contains k (codes "name")
        || contains k (codes "organization")
        || contains k (codes "org")
        || str_eq k (codes "registrant"))

abbrev is_email_of : String → Str → Bool
is_email_of who k = contains k (codes who) && contains k (codes "email")

-- `if !items.contains(&s) { items.push(s) }`
unfoldable pub push_new : List Str → Str → List Str
push_new items s = if mem_str items s then items else items ++ (s ∷ [])

-- The arms of the `match` on the key, in the source's order: guard and result.
unfoldable pub arms : CaseMap → ParsedWhoisData → Str → Str → List (Bool × ParsedWhoisData)
arms m p k value =
    (is_expiration k && is_none p.expiration_date, record p { expiration_date = some value })
    ∷ (is_creation k && is_none p.creation_date, record p { creation_date = some value })
    ∷ (is_updated k && is_none p.updated_date, record p { updated_date = some value })
    ∷ (is_registrar k && is_none p.registrar, record p { registrar = some value })
    ∷ (is_name_server k, record p { name_servers = push_new p.name_servers (first_word value) })
    ∷ (is_status k && not (mem_str p.status value), record p { status = p.status ++ (value ∷ []) })
    ∷ (
      is_registrant_name k
          && is_none p.registrant_name
          && not (contains (to_lowercase m value) (codes "select request")),
      record p { registrant_name = some value },
    )
    ∷ (
      is_email_of "registrant" k && is_none p.registrant_email && is_address m value,
      record p { registrant_email = some value },
    )
    ∷ (
      is_email_of "admin" k && is_none p.admin_email && is_address m value,
      record p { admin_email = some value },
    )
    ∷ (
      is_email_of "tech" k && is_none p.tech_email && is_address m value,
      record p { tech_email = some value },
    )
    ∷ []

-- The `match`: an arm whose guard fails falls through to the next one.
unfoldable pub store_field : CaseMap → ParsedWhoisData → Str → Str → ParsedWhoisData
unfolding arms
store_field m p k value = first_arm (arms m p k value) p

-- `key: value`, trimmed, with the key in lower case; `none` for a line with no colon or no value
unfoldable pub key_value : CaseMap → Str → Option (Str × Str)
key_value m line = elim (split_once line b':') [
  | none ↦ none
  | some (key, rest) ↦ elim (trim rest) [
    | [] ↦ none
    | c ∷ value ↦ some (to_lowercase m (trim key), c ∷ value)
  ]
]

abbrev pub store_pair {ℓ} : {S : Type ℓ} → (S → Str → Str → S) → S → Option (Str × Str) → S
store_pair store s none = s
store_pair store s (some (key, value)) = store s key value

-- One round of the loop.
unfoldable pub parse_line : CaseMap → ParsedWhoisData → Str → ParsedWhoisData
parse_line m p raw =
    let line = trim raw in
    if is_skipped line then p else store_pair (store_field m) p (key_value m line)

unfoldable pub parse_lines : CaseMap → ParsedWhoisData → List Str → ParsedWhoisData
parse_lines m p [] = p
parse_lines m p (line ∷ ls) = parse_lines m (parse_line m p line) ls

unfoldable pub parse_whois_data : CaseMap → (c : Chrono) → Clock c → Str → ParsedWhoisData
parse_whois_data m c now text = calculate_age_fields c now (parse_lines m new (lines text))
