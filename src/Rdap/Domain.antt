-- ===== src/Rdap/Domain.antt =====
-- src/rdap.rs: `RdapDomainResponse` and `parse_rdap_response`. The deserializer that serde derives
-- is a parameter: the text of its error, or the response.
pub mod Events
mod Roles
use rust_whois.Prelude.{
  ℕ, zero, suc, Bool, true, false, ◌&&◌, ◌||◌, List, [], ◌∷◌, ◌++◌, Option, none, some, ◌⊎◌, inl,
  inr, if◌then◌else◌, length, is_none,
}
use rust_whois.Text.{Str, codes, mem_str, str_eq}
use rust_whois.Data.{ParsedWhoisData, new}
use rust_whois.Dates.{Chrono, Clock, calculate_age_fields}
use rust_whois.Parser.Number.{show_nat}
use rust_whois.Rdap.Json.{Value}
use rust_whois.Rdap.Vcard.{
  extract_registrar_from_vcard, extract_name_from_vcard, extract_email_from_vcard,
}

pub record RdapNameserver : Type 0 where
  pub ldh_name : Option Str

pub record RdapEvent : Type 0 where
  pub event_action : Option Str
  pub event_date : Option Str

pub record RdapEntity : Type 0 where
  pub roles : Option (List Str)
  pub vcard_array : Option Value

pub record RdapDomainResponse : Type 0 where
  pub name_servers : Option (List RdapNameserver)
  pub events : Option (List RdapEvent)
  pub entities : Option (List RdapEntity)
  pub status : Option (List Str)

-- `if let Some(ref xs) = field { for x in xs { .. } }`
unfoldable pub for_each :
    {A : Type 0}
    → (ParsedWhoisData → A → ParsedWhoisData)
    → ParsedWhoisData
    → List A
    → ParsedWhoisData
for_each body p [] = p
for_each body p (x ∷ xs) = for_each body (body p x) xs

abbrev pub items_of : {A : Type 0} → Option (List A) → List A
items_of none = []
items_of (some xs) = xs

-- `if let Some(a) = value { .. }`
abbrev pub if_some :
    {A : Type 0} → Option A → (A → ParsedWhoisData) → ParsedWhoisData → ParsedWhoisData
if_some none f p = p
if_some (some a) f p = f a

unfoldable pub push_name : ParsedWhoisData → RdapNameserver → ParsedWhoisData
push_name p ns =
    if_some ns.ldh_name (λ name. record p { name_servers = p.name_servers ++ (name ∷ []) }) p

-- The `match` on the action of an event with a date.
unfoldable pub store_action : ParsedWhoisData → (action date : Str) → ParsedWhoisData
unfolding str_eq
store_action p action date =
    if str_eq action (codes "registration")
    then record p { creation_date = some date }
    else if str_eq action (codes "expiration")
    then record p { expiration_date = some date }
    else if (str_eq action (codes "last changed")
          || str_eq action (codes "last update of RDAP database"))
        && is_none p.updated_date
    then record p { updated_date = some date }
    else p

unfoldable pub store_event : ParsedWhoisData → RdapEvent → ParsedWhoisData
unfolding store_action
store_event p event =
    if_some event.event_action
      (λ action. if_some event.event_date (λ date. store_action p action date) p) p

-- What an entity with a vCard and the role `registrar` adds.
unfoldable pub as_registrar : ParsedWhoisData → Value → ParsedWhoisData
unfolding extract_registrar_from_vcard
as_registrar p vcard =
    if_some (extract_registrar_from_vcard vcard) (λ name. record p { registrar = some name }) p

unfoldable pub as_registrant : ParsedWhoisData → Value → ParsedWhoisData
unfolding extract_name_from_vcard extract_email_from_vcard
as_registrant p vcard =
    let q =
      if_some (extract_name_from_vcard vcard) (λ name. record p { registrant_name = some name })
        p in
    if_some (extract_email_from_vcard vcard) (λ email. record q { registrant_email = some email }) q

unfoldable pub as_administrative : ParsedWhoisData → Value → ParsedWhoisData
unfolding extract_email_from_vcard
as_administrative p vcard =
    if is_none p.admin_email then record p { admin_email = extract_email_from_vcard vcard } else p

unfoldable pub as_technical : ParsedWhoisData → Value → ParsedWhoisData
unfolding extract_email_from_vcard
as_technical p vcard =
    if is_none p.tech_email then record p { tech_email = extract_email_from_vcard vcard } else p

-- `if roles.contains(role) { if let Some(ref vcard) = entity.vcard_array { .. } }`
abbrev pub in_role :
    Str
    → List Str
    → Option Value
    → (ParsedWhoisData → Value → ParsedWhoisData)
    → ParsedWhoisData
    → ParsedWhoisData
in_role role roles vcard f p = if mem_str roles role then if_some vcard (f p) p else p

unfoldable pub store_roles : List Str → Option Value → ParsedWhoisData → ParsedWhoisData
unfolding as_registrar as_registrant as_administrative as_technical mem_str
store_roles roles vcard p = in_role (codes "technical") roles vcard as_technical (
    in_role (codes "administrative") roles vcard as_administrative (
      in_role (codes "registrant") roles vcard as_registrant
        (in_role (codes "registrar") roles vcard as_registrar p)))

unfoldable pub store_entity : ParsedWhoisData → RdapEntity → ParsedWhoisData
unfolding store_roles
store_entity p entity = if_some entity.roles (λ roles. store_roles roles entity.vcard_array p) p

-- The arm `Ok(rdap)`, up to the age fields.
unfoldable pub record_of : RdapDomainResponse → ParsedWhoisData
unfolding for_each push_name store_event store_entity
record_of rdap =
    let named = for_each push_name new (items_of rdap.name_servers) in
    let stated = if_some rdap.status (λ status. record named { status = status }) named in
    let dated = for_each store_event stated (items_of rdap.events) in
    for_each store_entity dated (items_of rdap.entities)

-- `as_ref().unwrap_or(&"NOT FOUND".to_string())`
abbrev pub or_not_found : Option Str → Str
or_not_found none = codes "NOT FOUND"
or_not_found (some s) = s

-- `chars().take(n).collect()`
abbrev first_chars : ℕ → Str → Str
first_chars zero s = []
first_chars (suc n) [] = []
first_chars (suc n) (c ∷ s) = c ∷ first_chars n s

abbrev pub failed : Str → (reason raw_data : Str) → List Str
failed message reason raw_data =
    (message ++ reason) ∷ codes "Raw response (first 500 chars):" ∷ first_chars 500 raw_data ∷ []

unfoldable pub parse_rdap_response :
    (Str → Str ⊎ RdapDomainResponse)
    → (c : Chrono) → Clock c
    → Str
    → Option ParsedWhoisData × List Str
unfolding record_of calculate_age_fields show_nat
parse_rdap_response from_str c now raw_data = elim (from_str raw_data) [
  | inl e ↦ (
    none,
    codes "=== RDAP PARSING ANALYSIS ==="
        ∷ failed (codes "❌ Failed to parse RDAP JSON: ") e raw_data,
  )
  | inr rdap ↦
      let parsed = calculate_age_fields c now (record_of rdap) in
      (
        some parsed,
        codes "=== RDAP PARSING ANALYSIS ==="
            ∷ codes "✓ RDAP JSON parsed successfully"
            ∷ (codes "✓ Registrar: " ++ or_not_found parsed.registrar)
            ∷ (codes "✓ Creation Date: " ++ or_not_found parsed.creation_date)
            ∷ (codes "✓ Expiration Date: " ++ or_not_found parsed.expiration_date)
            ∷ (codes "✓ Name Servers: " ++ show_nat (length parsed.name_servers) ++ codes " found")
            ∷ (codes "✓ Status: " ++ show_nat (length parsed.status) ++ codes " found")
            ∷ [],
      )
]
