-- ===== src/Rdap/Domain/Roles.antt =====
-- src/rdap.rs: the fields of a domain record that its entities do not set.
use rust_whois.Prelude.{◌≡◌, refl, ◌∙◌, List, [], ◌∷◌, Option, none, some, is_none, if_rule}
use rust_whois.Text.{Str, codes, mem_str}
use rust_whois.Data.{ParsedWhoisData}
use rust_whois.Rdap.Json.{Value}
use rust_whois.Rdap.Vcard.{
  extract_registrar_from_vcard, extract_name_from_vcard, extract_email_from_vcard,
}
use rust_whois.Rdap.Domain.{
  RdapEntity, for_each, if_some, as_registrar, as_registrant, as_administrative, as_technical,
  in_role, store_roles, store_entity,
}

-- The fields that the entities leave alone.
abbrev pub view : ParsedWhoisData → Option Str × Option Str × Option Str × List Str × List Str
view p = (p.creation_date, p.expiration_date, p.updated_date, p.name_servers, p.status)

abbrev pub Same : ParsedWhoisData → ParsedWhoisData → Type 0
Same p q = view p ≡ view q

if_some-Same :
    {A : Type 0} (o : Option A) (f : A → ParsedWhoisData) (p q : ParsedWhoisData)
    → ((a : A) → Same (f a) q)
    → Same p q
    → Same (if_some o f p) q
if_some-Same none f p q hf hp = hp
if_some-Same (some a) f p q hf hp = hf a

as_registrar-Same : (p : ParsedWhoisData) (v : Value) → Same (as_registrar p v) p
unfolding as_registrar
as_registrar-Same p v = if_some-Same (extract_registrar_from_vcard v) _ p p (λ name. refl) refl

as_registrant-Same : (p : ParsedWhoisData) (v : Value) → Same (as_registrant p v) p
unfolding as_registrant
as_registrant-Same p v =
    let q =
      if_some (extract_name_from_vcard v) (λ name. record p { registrant_name = some name }) p in
    let named : Same q p = if_some-Same (extract_name_from_vcard v) _ p p (λ name. refl) refl in
    if_some-Same (extract_email_from_vcard v) _ q p (λ email. named) named

as_administrative-Same : (p : ParsedWhoisData) (v : Value) → Same (as_administrative p v) p
unfolding as_administrative
as_administrative-Same p v =
    if_rule (λ q. Same q p) (is_none p.admin_email) _ p (λ _. refl) (λ _. refl)

as_technical-Same : (p : ParsedWhoisData) (v : Value) → Same (as_technical p v) p
unfolding as_technical
as_technical-Same p v = if_rule (λ q. Same q p) (is_none p.tech_email) _ p (λ _. refl) (λ _. refl)

in_role-Same :
    (role : Str) (roles : List Str) (vcard : Option Value)
    (f : ParsedWhoisData → Value → ParsedWhoisData) (p : ParsedWhoisData)
    → ((v : Value) → Same (f p v) p)
    → Same (in_role role roles vcard f p) p
in_role-Same role roles vcard f p h =
    if_rule (λ q. Same q p) (mem_str roles role) _ p (λ _. if_some-Same vcard (f p) p p h refl)
      (λ _. refl)

store_roles-Same :
    (roles : List Str) (vcard : Option Value) (p : ParsedWhoisData)
    → Same (store_roles roles vcard p) p
unfolding store_roles
store_roles-Same roles vcard p =
    let p1 = in_role (codes "registrar") roles vcard as_registrar p in
    let p2 = in_role (codes "registrant") roles vcard as_registrant p1 in
    let p3 = in_role (codes "administrative") roles vcard as_administrative p2 in
    in_role-Same (codes "technical") roles vcard as_technical p3 (as_technical-Same p3)
    ∙ in_role-Same (codes "administrative") roles vcard as_administrative p2
        (as_administrative-Same p2)
    ∙ in_role-Same (codes "registrant") roles vcard as_registrant p1 (as_registrant-Same p1)
    ∙ in_role-Same (codes "registrar") roles vcard as_registrar p (as_registrar-Same p)

pub entities-Same :
    (p : ParsedWhoisData) (es : List RdapEntity) → Same (for_each store_entity p es) p
unfolding for_each store_entity
entities-Same p [] = refl
entities-Same p (e ∷ es) =
    entities-Same (store_entity p e) es
    ∙ if_some-Same e.roles _ p p (λ roles. store_roles-Same roles e.vcard_array p) refl
