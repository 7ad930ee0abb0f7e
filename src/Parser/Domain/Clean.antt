-- ===== src/Parser/Domain/Clean.antt =====
-- src/parser.rs: the lists and the e-mail fields of a parsed record.
use mathlib.Core.List.{append-nil, append_assoc}
use rust_whois.Prelude.{
  ◌≡◌, true, false, List, [], ◌∷◌, ◌++◌, Option, none, some, arith, if_rule, Bool-cases, inl, inr,
}
use rust_whois.Text.{
  Str, codes, CaseMap, contains, contains_char, to_lowercase, mem_str, first_word, trim, lines,
}
use rust_whois.Data.{ParsedWhoisData, new}
use rust_whois.Dates.{Chrono, Clock, calculate_age_fields}
use rust_whois.Parser.Domain.Arms.{store_field_rule}
use rust_whois.Parser.Domain.{
  is_skipped, is_address, push_new, store_field, key_value, store_pair, parse_line, parse_lines,
  parse_whois_data,
}

-- No text stands twice in the list: none is among those before it.
abbrev pub NoRepeat : List Str → List Str → Type 0
NoRepeat seen [] = Unit
NoRepeat seen (s ∷ rest) = (mem_str seen s ≡ false) × NoRepeat (seen ++ (s ∷ [])) rest

-- An e-mail field holds a text with an `@` that does not ask to select a request form.
abbrev pub IsEmail : CaseMap → Option Str → Type 0
IsEmail m none = Unit
IsEmail m (some e) =
    (contains_char e b'@' ≡ true) × (contains (to_lowercase m e) (codes "select request") ≡ false)

pub record IsClean (m : CaseMap) (p : ParsedWhoisData) : Type 0 where
  pub name_servers : NoRepeat [] p.name_servers
  pub status : NoRepeat [] p.status
  pub registrant_email : IsEmail m p.registrant_email
  pub admin_email : IsEmail m p.admin_email
  pub tech_email : IsEmail m p.tech_email

NoRepeat-concat :
    (seen xs : List Str) (s : Str)
    → NoRepeat seen xs
    → mem_str (seen ++ xs) s ≡ false
    → NoRepeat seen (xs ++ (s ∷ []))
NoRepeat-concat seen [] s h fresh = (rw (append-nil seen) at fresh, tt)
NoRepeat-concat seen (x ∷ xs) s (h, hs) fresh =
    (h, NoRepeat-concat (seen ++ (x ∷ [])) xs s hs (rw append_assoc fresh))

NoRepeat-push_new : (xs : List Str) (s : Str) → NoRepeat [] xs → NoRepeat [] (push_new xs s)
unfolding push_new
NoRepeat-push_new xs s h = elim (Bool-cases (mem_str xs s)) [
  | inl old ↦ rw old h
  | inr fresh ↦ rw fresh (NoRepeat-concat [] xs s h fresh)
]

IsEmail-is_address : (m : CaseMap) (v : Str) → is_address m v ≡ true → IsEmail m (some v)
unfolding is_address
IsEmail-is_address m v h = ground arith

store_field-IsClean :
    (m : CaseMap) (p : ParsedWhoisData) (k value : Str)
    → IsClean m p
    → IsClean m (store_field m p k value)
store_field-IsClean m p k value c =
    store_field_rule (IsClean m) m p k value (λ e. assumption c) (λ e. assumption c)
      (λ e. assumption c) (λ e. assumption c)
      (assumption (c, NoRepeat-push_new p.name_servers (first_word value) c.name_servers))
      (λ fresh. assumption (c, NoRepeat-concat [] p.status value c.status fresh))
      (λ e. assumption c) (λ e a. assumption (c, IsEmail-is_address m value a))
      (λ e a. assumption (c, IsEmail-is_address m value a))
      (λ e a. assumption (c, IsEmail-is_address m value a)) c

parse_line-IsClean :
    (m : CaseMap) (p : ParsedWhoisData) (l : Str) → IsClean m p → IsClean m (parse_line m p l)
unfolding parse_line
parse_line-IsClean m p l c =
    if_rule (IsClean m) (is_skipped (trim l)) p
      (store_pair (store_field m) p (key_value m (trim l))) (λ _. c)
      (λ _. stored (key_value m (trim l)))
  where
    stored : (kv : Option (Str × Str)) → IsClean m (store_pair (store_field m) p kv)
    stored none = c
    stored (some (key, value)) = store_field-IsClean m p key value c

parse_lines-IsClean :
    (m : CaseMap) (p : ParsedWhoisData) (ls : List Str)
    → IsClean m p
    → IsClean m (parse_lines m p ls)
unfolding parse_lines
parse_lines-IsClean m p [] c = c
parse_lines-IsClean m p (l ∷ ls) c =
    parse_lines-IsClean m (parse_line m p l) ls (parse_line-IsClean m p l c)

-- Of any text, the parsed record lists no name server and no status twice, and each e-mail field
-- that is set has an `@` and does not, in any case, say "select request".
pub parse_whois_data-IsClean :
    (m : CaseMap) (c : Chrono) (now : Clock c) (text : Str)
    → IsClean m (parse_whois_data m c now text)
unfolding parse_whois_data calculate_age_fields
parse_whois_data-IsClean m c now text =
    let k = parse_lines-IsClean m new (lines text) (record {
      name_servers = tt;
      status = tt;
      registrant_email = tt;
      admin_email = tt;
      tech_email = tt;
    }) in
    record {
      name_servers = k.name_servers;
      status = k.status;
      registrant_email = k.registrant_email;
      admin_email = k.admin_email;
      tech_email = k.tech_email;
    }
