-- ===== src/Rdap/Network.antt =====
-- src/rdap.rs: `parse_rdap_ip_response`. The parser of JSON is a parameter: the text of its error,
-- or the value.
use rust_whois.Prelude.{
  String, ◌&&◌, ◌||◌, List, [], ◌∷◌, ◌++◌, Option, none, some, ◌⊎◌, inl, inr, if◌then◌else◌, length,
  is_none, or_else,
}
use rust_whois.Text.{Str, codes, mem_str, str_eq}
use rust_whois.Data.{ParsedWhoisData, new}
use rust_whois.Dates.{Chrono, Clock, calculate_age_fields}
use rust_whois.Parser.Number.{show_nat}
use rust_whois.Rdap.Json.{Value, as_str, and_then, get, get_str, get_array, strings}
use rust_whois.Rdap.Vcard.{extract_name_from_vcard, extract_email_from_vcard}
use rust_whois.Rdap.Domain.{or_not_found, failed, items_of}

-- The two variables that the loops change.
pub record State : Type 0 where
  pub parsed : ParsedWhoisData
  pub analysis : List Str

-- `analysis.push(line)` after `parsed` has changed
abbrev note : State → ParsedWhoisData → Str → State
note s p line = record { parsed = p; analysis = s.analysis ++ (line ∷ []) }

unfoldable pub for_each : (State → Value → State) → State → List Value → State
for_each body s [] = s
for_each body s (v ∷ vs) = for_each body (body s v) vs

abbrev if_some : {A : Type 0} → Option A → (A → State) → State → State
if_some none f s = s
if_some (some a) f s = f a

unfoldable pub store_network_name : Value → State → State
unfolding get_str
store_network_name json s =
    if_some (get_str (codes "name") json)
      (λ name.
        note s (record s.parsed { registrar = some name }) (codes "✓ Network Name: " ++ name))
      s

unfoldable pub note_cidr : State → Value → State
unfolding get
note_cidr s cidr =
    if_some (and_then (or_else (get (codes "v4prefix") cidr) (get (codes "v6prefix") cidr)) as_str)
      (λ cidr_str. note s s.parsed (codes "✓ CIDR: " ++ cidr_str)) s

unfoldable pub note_range : Value → State → State
unfolding get_str
note_range json s =
    if_some (get_str (codes "startAddress") json)
      (λ start.
        if_some (get_str (codes "endAddress") json)
          (λ stop. note s s.parsed (codes "✓ IP Range: " ++ start ++ codes " - " ++ stop)) s)
      s

unfoldable pub store_status : Value → State → State
unfolding get_array show_nat
store_status json s =
    if_some (get_array (codes "status") json)
      (λ status.
        let p = record s.parsed { status = strings status } in
        note s p (codes "✓ Status: " ++ show_nat (length p.status) ++ codes " entries"))
      s

-- The `match` on the action of an event with a date.
unfoldable pub store_action : State → (action date : Str) → State
unfolding str_eq
store_action s action date =
    if str_eq action (codes "registration")
    then note s (record s.parsed { creation_date = some date })
        (codes "✓ Registration Date: " ++ date)
    else if (str_eq action (codes "last changed")
          || str_eq action (codes "last update of RDAP database"))
        && is_none s.parsed.updated_date
    then note s (record s.parsed { updated_date = some date }) (codes "✓ Last Updated: " ++ date)
    else s

unfoldable pub store_event : State → Value → State
unfolding get_str store_action
store_event s event =
    if_some (get_str (codes "eventAction") event)
      (λ action. if_some (get_str (codes "eventDate") event) (λ date. store_action s action date) s)
      s

unfoldable pub store_organization : Value → State → State
unfolding extract_name_from_vcard
store_organization vcard s =
    if_some (extract_name_from_vcard vcard)
      (λ name.
        if is_none s.parsed.registrant_name
        then note s (record s.parsed { registrant_name = some name })
            (codes "✓ Organization: " ++ name)
        else s)
      s

unfoldable pub store_email : List Str → Str → State → State
unfolding mem_str
store_email role_strings email s =
    if mem_str role_strings (codes "technical") && is_none s.parsed.tech_email
    then note s (record s.parsed { tech_email = some email }) (codes "✓ Tech Email: " ++ email)
    else if mem_str role_strings (codes "abuse") && is_none s.parsed.admin_email
    then note s (record s.parsed { admin_email = some email }) (codes "✓ Abuse Email: " ++ email)
    else if is_none s.parsed.registrant_email
    then record s { parsed = record s.parsed { registrant_email = some email } }
    else s

unfoldable pub store_entity : State → Value → State
unfolding get get_array store_organization store_email extract_email_from_vcard
store_entity s entity =
    if_some (get (codes "vcardArray") entity)
      (λ vcard.
        let named = store_organization vcard s in
        if_some (extract_email_from_vcard vcard)
          (λ email.
            if_some (get_array (codes "roles") entity)
              (λ roles. store_email (strings roles) email named) named)
          named)
      s

abbrev pub initial : State
initial = record { parsed = new; analysis = codes "=== RDAP IP PARSING ANALYSIS ===" ∷ [] }

-- `if let Some(items) = json.get(key).and_then(|v| v.as_array()) { for .. }`
abbrev items_at : String → Value → List Value
items_at key json = items_of (get_array (codes key) json)

-- The arm `Ok(json)`, up to the age fields.
unfoldable pub state_of : Value → State
unfolding store_network_name note_cidr note_range store_status store_event store_entity for_each
    get_array
state_of json =
    let named = store_network_name json initial in
    let blocks = for_each note_cidr named (items_at "cidr0_cidrs" json) in
    let stated = store_status json (note_range json blocks) in
    let dated = for_each store_event stated (items_at "events" json) in
    for_each store_entity dated (items_at "entities" json)

unfoldable pub parse_rdap_ip_response :
    (Str → Str ⊎ Value) → (c : Chrono) → Clock c → Str → Option ParsedWhoisData × List Str
unfolding state_of calculate_age_fields show_nat
parse_rdap_ip_response from_str c now raw_data = elim (from_str raw_data) [
  | inl e ↦ (
    none,
    codes "=== RDAP IP PARSING ANALYSIS ==="
        ∷ failed (codes "❌ Failed to parse RDAP IP JSON: ") e raw_data,
  )
  | inr json ↦
      let s = state_of json in
      let parsed = calculate_age_fields c now s.parsed in
      let summary : List Str =
        codes "\n=== SUMMARY ==="
        ∷ (codes "Network/Organization: " ++ or_not_found parsed.registrar)
        ∷ (codes "Created: " ++ or_not_found parsed.creation_date)
        ∷ (codes "Updated: " ++ or_not_found parsed.updated_date)
        ∷ (codes "Status entries: " ++ show_nat (length parsed.status))
        ∷ [] in
      (some parsed, s.analysis ++ summary)
]
