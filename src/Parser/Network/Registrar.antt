-- ===== src/Parser/Network/Registrar.antt =====
-- src/parser.rs: where the registrar of an IP response comes from.
use rust_whois.Prelude.{
  ◌≡◌, refl, ◌∙◌, Bool, true, false, ◌&&◌, ◌||◌, List, [], ◌∷◌, Option, none, some, arith, if_rule,
  if◌then◌else◌, is_none, is_some, or_else, Bool-cases, inl, inr,
}
use rust_whois.Text.{Str, CaseMap, trim, lines}
use rust_whois.Data.{ParsedWhoisData}
use rust_whois.Dates.{Chrono, Clock, calculate_age_fields}
use rust_whois.Parser.Match.{first_arm, first_arm_rule}
use rust_whois.Parser.Domain.{key_value, store_pair}
use rust_whois.Parser.Network.{
  State, is_org, is_netname, org_arm, netname_arm, other_arms, store_field, is_skipped, parse_line,
  parse_lines, initial, parse_ip_whois_data_with_analysis,
}

-- The value of a line whose key passes the test; `none` for a comment, too.
abbrev value_if : (Str → Bool) → Option (Str × Str) → Option Str
value_if test none = none
value_if test (some (key, value)) = if test key then some value else none

unfoldable pub field_of : CaseMap → (Str → Bool) → Str → Option Str
field_of m test raw =
    let line = trim raw in if is_skipped line then none else value_if test (key_value m line)

-- The first value, from the top, of a line whose key passes the test.
unfoldable pub first_value : CaseMap → (Str → Bool) → List Str → Option Str
unfolding field_of
first_value m test [] = none
first_value m test (line ∷ ls) = or_else (field_of m test line) (first_value m test ls)

or_else_assoc : (a b c : Option Str) → or_else (or_else a b) c ≡ or_else a (or_else b c)
or_else_assoc none b c = refl
or_else_assoc (some a) b c = refl

or_else-none : (a : Option Str) → or_else a none ≡ a
or_else-none none = refl
or_else-none (some a) = refl

abbrev SameOwner : State → State → Type 0
SameOwner s t =
    (t.parsed.registrar ≡ s.parsed.registrar) × (t.org_from_netname ≡ s.org_from_netname)

other_arms-SameOwner :
    (s : State) (k value : Str) → SameOwner s (first_arm (other_arms s k value) s)
unfolding other_arms
other_arms-SameOwner s k value =
    let e : SameOwner s s = (refl, refl) in
    first_arm_rule (SameOwner s) (other_arms s k value) s
      (λ _. e, (λ _. e, (λ _. e, (λ _. e, (λ _. e, (λ _. e, (λ _. e, tt))))))) e

abbrev next : Option Str → Bool → Str → Option Str
next o taken v = or_else o (if taken then some v else none)

-- The bookkeeping of the first two arms, over the values that they read.
module _ (org net reg : Option Str) (flag is_o is_n : Bool) (v : Str) (r : reg ≡ or_else org net)
    (f : flag ≡ (is_none org && is_some net)) where
  took_org :
      (is_o && (is_none reg || flag)) ≡ true
      → (some v ≡ or_else (next org is_o v) (next net is_n v))
        × (false ≡ (is_none (next org is_o v) && is_some (next net is_n v)))
  took_org g = ground arith

  took_netname :
      (is_o && (is_none reg || flag)) ≡ false
      → (is_n && is_none reg) ≡ true
      → (some v ≡ or_else (next org is_o v) (next net is_n v))
        × (true ≡ (is_none (next org is_o v) && is_some (next net is_n v)))
  took_netname g h = ground arith

  took_other :
      (is_o && (is_none reg || flag)) ≡ false
      → (is_n && is_none reg) ≡ false
      → (reg ≡ or_else (next org is_o v) (next net is_n v))
        × (flag ≡ (is_none (next org is_o v) && is_some (next net is_n v)))
  took_other g h = ground arith

abbrev Tracked : (org net : Option Str) → State → Type 0
Tracked org net s =
    (s.parsed.registrar ≡ or_else org net) × (s.org_from_netname ≡ (is_none org && is_some net))

store_field-Tracked :
    (s : State) (org net : Option Str) (k value : Str)
    → Tracked org net s
    → Tracked (next org (is_org k) value) (next net (is_netname k) value) (store_field s k value)
unfolding store_field
store_field-Tracked s org net k value (r, f) =
    let took =
      took_org org net s.parsed.registrar s.org_from_netname (is_org k) (is_netname k) value r f in
    let named =
      took_netname org net s.parsed.registrar s.org_from_netname (is_org k) (is_netname k) value r
        f in
    let other =
      took_other org net s.parsed.registrar s.org_from_netname (is_org k) (is_netname k) value r
        f in
    if_rule (Tracked (next org (is_org k) value) (next net (is_netname k) value))
      (org_arm s k value).0 (org_arm s k value).1
      (first_arm (netname_arm s k value ∷ other_arms s k value) s) took
      λ h1.
        if_rule (Tracked (next org (is_org k) value) (next net (is_netname k) value))
          (netname_arm s k value).0 (netname_arm s k value).1 (first_arm (other_arms s k value) s)
          (named h1)
          λ h2.
            let (same_r, same_f) = other_arms-SameOwner s k value in
            let (er, ef) = other h1 h2 in (same_r ∙ er, same_f ∙ ef)

pair-Tracked :
    (s : State) (org net : Option Str) (kv : Option (Str × Str))
    → Tracked org net s
    → Tracked
        (or_else org (value_if is_org kv))
        (or_else net (value_if is_netname kv))
        (store_pair store_field s kv)
pair-Tracked s org net none t = rw (or_else-none org, or_else-none net) t
pair-Tracked s org net (some (k, value)) t = store_field-Tracked s org net k value t

parse_line-Tracked :
    (m : CaseMap) (s : State) (org net : Option Str) (line : Str)
    → Tracked org net s
    → Tracked
        (or_else org (field_of m is_org line))
        (or_else net (field_of m is_netname line))
        (parse_line m s line)
unfolding parse_line field_of
parse_line-Tracked m s org net line t = elim (Bool-cases (is_skipped (trim line))) [
  | inl skipped ↦ rw (skipped, or_else-none org, or_else-none net) t
  | inr kept ↦ rw kept (pair-Tracked s org net (key_value m (trim line)) t)
]

parse_lines-Tracked :
    (m : CaseMap) (ls : List Str) (s : State) (org net : Option Str)
    → Tracked org net s
    → (parse_lines m s ls).parsed.registrar
      ≡ or_else (or_else org (first_value m is_org ls)) (or_else net (first_value m is_netname ls))
unfolding parse_lines first_value
parse_lines-Tracked m [] s org net t = rw (or_else-none org, or_else-none net) t.0
parse_lines-Tracked m (line ∷ ls) s org net t =
    rw
      (
        ← or_else_assoc org (field_of m is_org line) (first_value m is_org ls),
        ← or_else_assoc net (field_of m is_netname line) (first_value m is_netname ls),
      )
      (parse_lines-Tracked m ls (parse_line m s line) _ _ (parse_line-Tracked m s org net line t))

-- The registrar found in an IP response is the value of its first organization line, wherever that
-- stands; only if there is none, it is the value of the first network name, or absent.
pub parse_ip-registrar :
    (m : CaseMap) (c : Chrono) (now : Clock c) (text : Str)
    → (p : ParsedWhoisData) × ((parse_ip_whois_data_with_analysis m c now text).0 ≡ some p)
      × (p.registrar
          ≡ or_else (first_value m is_org (lines text)) (first_value m is_netname (lines text)))
unfolding parse_ip_whois_data_with_analysis calculate_age_fields
parse_ip-registrar m c now text =
    (_, refl, parse_lines-Tracked m (lines text) initial none none (refl, refl))
