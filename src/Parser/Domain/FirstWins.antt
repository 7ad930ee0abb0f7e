-- ===== src/Parser/Domain/FirstWins.antt =====
-- src/parser.rs: `parse_whois_data` on a text with more lines.
use rust_whois.Prelude.{
  ◌≡◌, refl, sym, List, [], ◌∷◌, ◌++◌, Option, none, some, arith, if_rule, Bool-cases, inl, inr,
}
use mathlib.Core.List.{append_assoc, append-nil}
use rust_whois.Text.{Str, CaseMap, mem_str, first_word, trim}
use rust_whois.Data.{ParsedWhoisData}
use rust_whois.Parser.Domain.Arms.{store_field_rule}
use rust_whois.Parser.Domain.{
  is_skipped, push_new, store_field, key_value, store_pair, parse_line, parse_lines,
}

-- What is set in the first stays set to the same value in the second.
pub record Keeps (a b : Option Str) : Type 0 where
  pub at : (v : Str) → a ≡ some v → b ≡ some v

abbrev pub Prefix : List Str → List Str → Type 0
Prefix xs ys = (more : List Str) × (ys ≡ xs ++ more)

-- `q` has every value that `p` has, and its lists begin with those of `p`.
pub record Extends (p q : ParsedWhoisData) : Type 0 where
  pub registrar : Keeps p.registrar q.registrar
  pub creation_date : Keeps p.creation_date q.creation_date
  pub expiration_date : Keeps p.expiration_date q.expiration_date
  pub updated_date : Keeps p.updated_date q.updated_date
  pub name_servers : Prefix p.name_servers q.name_servers
  pub status : Prefix p.status q.status
  pub registrant_name : Keeps p.registrant_name q.registrant_name
  pub registrant_email : Keeps p.registrant_email q.registrant_email
  pub admin_email : Keeps p.admin_email q.admin_email
  pub tech_email : Keeps p.tech_email q.tech_email

Keeps-refl : (a : Option Str) → Keeps a a
Keeps-refl a = record { at = λ v e. e }

Keeps-trans : {a b c : Option Str} → Keeps a b → Keeps b c → Keeps a c
Keeps-trans h k = record { at = λ v e. k.at v (h.at v e) }

Prefix-trans : (a b c : List Str) → Prefix a b → Prefix b c → Prefix a c
Prefix-trans a b c (m, e) (n, k) = (m ++ n, ground (arith, append_assoc a m n))

Prefix-refl : (a : List Str) → Prefix a a
Prefix-refl a = ([], sym (append-nil a))

Prefix-push_new : (items : List Str) (s : Str) → Prefix items (push_new items s)
unfolding push_new
Prefix-push_new items s = elim (Bool-cases (mem_str items s)) [
  | inl old ↦ rw old (Prefix-refl items)
  | inr fresh ↦ rw fresh (s ∷ [], refl)
]

Extends-refl : (p : ParsedWhoisData) → Extends p p
Extends-refl p = record {
  registrar = Keeps-refl p.registrar;
  creation_date = Keeps-refl p.creation_date;
  expiration_date = Keeps-refl p.expiration_date;
  updated_date = Keeps-refl p.updated_date;
  name_servers = Prefix-refl p.name_servers;
  status = Prefix-refl p.status;
  registrant_name = Keeps-refl p.registrant_name;
  registrant_email = Keeps-refl p.registrant_email;
  admin_email = Keeps-refl p.admin_email;
  tech_email = Keeps-refl p.tech_email;
}

Extends-trans : {p q r : ParsedWhoisData} → Extends p q → Extends q r → Extends p r
Extends-trans {p} {q} {r} h k = record {
  registrar = Keeps-trans h.registrar k.registrar;
  creation_date = Keeps-trans h.creation_date k.creation_date;
  expiration_date = Keeps-trans h.expiration_date k.expiration_date;
  updated_date = Keeps-trans h.updated_date k.updated_date;
  name_servers =
      Prefix-trans p.name_servers q.name_servers r.name_servers h.name_servers k.name_servers;
  status = Prefix-trans p.status q.status r.status h.status k.status;
  registrant_name = Keeps-trans h.registrant_name k.registrant_name;
  registrant_email = Keeps-trans h.registrant_email k.registrant_email;
  admin_email = Keeps-trans h.admin_email k.admin_email;
  tech_email = Keeps-trans h.tech_email k.tech_email;
}

-- An empty field may be set.
Keeps-none : {a : Option Str} (b : Option Str) → a ≡ none → Keeps a b
Keeps-none b e = record { at = λ v h. cc }

store_field-Extends :
    (m : CaseMap) (p : ParsedWhoisData) (k value : Str) → Extends p (store_field m p k value)
store_field-Extends m p k value =
    let r = Extends-refl p in
    store_field_rule (Extends p) m p k value (λ e. assumption (r, Keeps-none (some value) e))
      (λ e. assumption (r, Keeps-none (some value) e))
      (λ e. assumption (r, Keeps-none (some value) e))
      (λ e. assumption (r, Keeps-none (some value) e))
      (assumption (r, Prefix-push_new p.name_servers (first_word value)))
      (λ e.
        let added : Prefix p.status (p.status ++ (value ∷ [])) = (value ∷ [], refl) in
        assumption (r, added))
      (λ e. assumption (r, Keeps-none (some value) e))
      (λ e _. assumption (r, Keeps-none (some value) e))
      (λ e _. assumption (r, Keeps-none (some value) e))
      (λ e _. assumption (r, Keeps-none (some value) e)) r

parse_line-Extends : (m : CaseMap) (p : ParsedWhoisData) (l : Str) → Extends p (parse_line m p l)
unfolding parse_line
parse_line-Extends m p l =
    if_rule (Extends p) (is_skipped (trim l)) p
      (store_pair (store_field m) p (key_value m (trim l))) (λ _. Extends-refl p)
      (λ _. stored (key_value m (trim l)))
  where
    stored : (kv : Option (Str × Str)) → Extends p (store_pair (store_field m) p kv)
    stored none = Extends-refl p
    stored (some (key, value)) = store_field-Extends m p key value

-- Whatever lines follow, what the parser has found so far stays: each field keeps its value, and
-- the lists of name servers and of statuses only grow at the end.
pub parse_lines-Extends :
    (m : CaseMap) (p : ParsedWhoisData) (earlier later : List Str)
    → Extends (parse_lines m p earlier) (parse_lines m p (earlier ++ later))
unfolding parse_lines
parse_lines-Extends m p [] [] = Extends-refl p
parse_lines-Extends m p [] (l ∷ later) =
    Extends-trans (parse_line-Extends m p l) (parse_lines-Extends m (parse_line m p l) [] later)
parse_lines-Extends m p (l ∷ earlier) later = parse_lines-Extends m (parse_line m p l) earlier later
