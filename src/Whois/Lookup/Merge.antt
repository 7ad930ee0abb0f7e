-- ===== src/Whois/Lookup/Merge.antt =====
-- src/whois.rs: what a followed referral may change of the answer of the registry.
use rust_whois.Prelude.{
  ◌≡◌, ◌≢◌, refl, sym, ◌∙◌, Bool, true, false, ◌&&◌, List, [], ◌∷◌, Option, none, some,
  if◌then◌else◌, is_some, Bool-cases, inl, inr, arith,
}
use rust_whois.Text.{Str, CaseMap, str_eq, str_eq_iff}
use rust_whois.Data.{ParsedWhoisData, LookupResult, fill_missing_from, fill_option, fill_list}
use rust_whois.Dates.{Chrono, Clock}
use rust_whois.Parser.Domain.{parse_whois_data}
use rust_whois.Parser.Report.{parse_whois_data_with_analysis}
use rust_whois.Whois.Lookup.{is_rate_limited, read, merge}

-- A field that was there is still there.
abbrev pub Kept : {A : Type 0} → Option A → Option A → Type 0
Kept none after = Unit
Kept (some a) after = is_some after ≡ true

abbrev pub KeptList : List Str → List Str → Type 0
KeptList [] after = Unit
KeptList (x ∷ xs) after = after ≢ []

abbrev pub Keeps : ParsedWhoisData → ParsedWhoisData → Type 0
Keeps p q =
    Kept p.registrar q.registrar
    × Kept p.creation_date q.creation_date
    × Kept p.expiration_date q.expiration_date
    × Kept p.updated_date q.updated_date
    × KeptList p.name_servers q.name_servers
    × KeptList p.status q.status
    × Kept p.registrant_name q.registrant_name
    × Kept p.registrant_email q.registrant_email
    × Kept p.admin_email q.admin_email
    × Kept p.tech_email q.tech_email
    × Kept p.created_ago q.created_ago
    × Kept p.updated_ago q.updated_ago
    × Kept p.expires_in q.expires_in

abbrev pub KeepsData : Option ParsedWhoisData → Option ParsedWhoisData → Type 0
KeepsData none after = Unit
KeepsData (some p) none = ⊥
KeepsData (some p) (some q) = Keeps p q

Kept-fill : {A : Type 0} (p r : Option A) → Kept r (fill_option p r)
Kept-fill p none = tt
Kept-fill none (some a) = refl
Kept-fill (some b) (some a) = refl

KeptList-fill : (p r : List Str) → KeptList r (fill_list p r)
KeptList-fill p [] = tt
KeptList-fill [] (x ∷ xs) = λ e. cc
KeptList-fill (y ∷ ys) (x ∷ xs) = λ e. cc

Kept-refl : {A : Type 0} (p : Option A) → Kept p p
Kept-refl none = tt
Kept-refl (some a) = refl

KeptList-refl : (p : List Str) → KeptList p p
KeptList-refl [] = tt
KeptList-refl (x ∷ xs) = λ e. cc

pub Keeps-fill : (p r : ParsedWhoisData) → Keeps r (fill_missing_from p r)
unfolding fill_missing_from
Keeps-fill p r = (
  Kept-fill p.registrar r.registrar,
  Kept-fill p.creation_date r.creation_date,
  Kept-fill p.expiration_date r.expiration_date,
  Kept-fill p.updated_date r.updated_date,
  KeptList-fill p.name_servers r.name_servers,
  KeptList-fill p.status r.status,
  Kept-fill p.registrant_name r.registrant_name,
  Kept-fill p.registrant_email r.registrant_email,
  Kept-fill p.admin_email r.admin_email,
  Kept-fill p.tech_email r.tech_email,
  Kept-fill p.created_ago r.created_ago,
  Kept-fill p.updated_ago r.updated_ago,
  Kept-fill p.expires_in r.expires_in,
)

Keeps-refl : (r : ParsedWhoisData) → Keeps r r
Keeps-refl r = (
  Kept-refl r.registrar,
  Kept-refl r.creation_date,
  Kept-refl r.expiration_date,
  Kept-refl r.updated_date,
  KeptList-refl r.name_servers,
  KeptList-refl r.status,
  Kept-refl r.registrant_name,
  Kept-refl r.registrant_email,
  Kept-refl r.admin_email,
  Kept-refl r.tech_email,
  Kept-refl r.created_ago,
  Kept-refl r.updated_ago,
  Kept-refl r.expires_in,
)

pick :
    (before : Option ParsedWhoisData) (same limited both : Bool) (final kept filled : LookupResult)
    → same ≡ false
    → (limited && both) ≡ false
    → KeepsData before kept.parsed_data
    → KeepsData before filled.parsed_data
    → KeepsData before
        (if same
          then final
          else if limited
          then if both then final else kept
          else filled).parsed_data
pick before true limited both final kept filled s u k f = cc
pick before false true true final kept filled s u k f = cc
pick before false true false final kept filled s u k f = k
pick before false false both final kept filled s u k f = f

pub str_eq-differs :
    (server whois_server : Str) → server ≢ whois_server → str_eq server whois_server ≡ false
str_eq-differs server whois_server new = elim (Bool-cases (str_eq server whois_server)) [
  | inl same ↦ absurd (new ((str_eq_iff server whois_server).0 same))
  | inr different ↦ different
]

module _ (m : CaseMap) (c : Chrono) (now later : Clock c)
    (whois_server raw_data server text : Str) where
  -- After a referral to another server, the result is throttled exactly if both the referral's
  -- response and the registry's own response are.
  pub merge-is_rate_limited :
      server ≢ whois_server
      → is_rate_limited (merge m c now later whois_server raw_data server text).status ≡ (
          is_rate_limited (read m c now server text).status
          && is_rate_limited (read m c later whois_server raw_data).status)
  unfolding merge
  merge-is_rate_limited new = let different = str_eq-differs server whois_server new in ground arith

  -- After a referral to another server, unless the referral's response and the registry's own
  -- are both throttled, no field that the registry's response has is missing from the result.
  pub merge-KeepsData :
      server ≢ whois_server
      → is_rate_limited (merge m c now later whois_server raw_data server text).status ≡ false
      → KeepsData
          (read m c later whois_server raw_data).parsed_data
          (merge m c now later whois_server raw_data server text).parsed_data
  unfolding merge read parse_whois_data_with_analysis
  merge-KeepsData new usable =
      let registry = parse_whois_data m c later raw_data in
      pick (some registry) (str_eq server whois_server)
        (is_rate_limited (read m c now server text).status)
        (is_rate_limited (read m c later whois_server raw_data).status) _ _ _
        (str_eq-differs server whois_server new) (sym (merge-is_rate_limited new) ∙ usable)
        (Keeps-refl registry) (Keeps-fill (parse_whois_data m c now text) registry)
