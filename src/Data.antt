-- ===== src/Data.antt =====
-- src/lib.rs: `LookupStatus`, `ParsedWhoisData`, `LookupResult` and `WhoisResponse`.
pub mod Fill
use rust_whois.Prelude.{ℕ, ℤ, Bool, List, [], ◌∷◌, Option, none, some}
use rust_whois.Text.{Str}

pub data LookupStatus : Type 0 where
  found not_found rate_limited : LookupStatus

pub record ParsedWhoisData : Type 0 where
  pub registrar : Option Str
  pub creation_date : Option Str
  pub expiration_date : Option Str
  pub updated_date : Option Str
  pub name_servers : List Str
  pub status : List Str
  pub registrant_name : Option Str
  pub registrant_email : Option Str
  pub admin_email : Option Str
  pub tech_email : Option Str
  pub created_ago : Option ℤ
  pub updated_ago : Option ℤ
  pub expires_in : Option ℤ

-- `ParsedWhoisData::new`
abbrev pub new : ParsedWhoisData
new = record {
  registrar = none;
  creation_date = none;
  expiration_date = none;
  updated_date = none;
  name_servers = [];
  status = [];
  registrant_name = none;
  registrant_email = none;
  admin_email = none;
  tech_email = none;
  created_ago = none;
  updated_ago = none;
  expires_in = none;
}

-- `if self.field.is_none() { self.field = fallback.field.clone() }`
abbrev pub fill_option {ℓ} : {A : Type ℓ} → Option A → Option A → Option A
fill_option none fallback = fallback
fill_option (some a) fallback = some a

-- `if self.field.is_empty() { self.field = fallback.field.clone() }`
abbrev pub fill_list {ℓ} : {A : Type ℓ} → List A → List A → List A
fill_list [] fallback = fallback
fill_list (x ∷ xs) fallback = x ∷ xs

-- `fill_missing_from`
unfoldable pub fill_missing_from : ParsedWhoisData → ParsedWhoisData → ParsedWhoisData
fill_missing_from p fallback = record {
  registrar = fill_option p.registrar fallback.registrar;
  creation_date = fill_option p.creation_date fallback.creation_date;
  expiration_date = fill_option p.expiration_date fallback.expiration_date;
  updated_date = fill_option p.updated_date fallback.updated_date;
  name_servers = fill_list p.name_servers fallback.name_servers;
  status = fill_list p.status fallback.status;
  registrant_name = fill_option p.registrant_name fallback.registrant_name;
  registrant_email = fill_option p.registrant_email fallback.registrant_email;
  admin_email = fill_option p.admin_email fallback.admin_email;
  tech_email = fill_option p.tech_email fallback.tech_email;
  created_ago = fill_option p.created_ago fallback.created_ago;
  updated_ago = fill_option p.updated_ago fallback.updated_ago;
  expires_in = fill_option p.expires_in fallback.expires_in;
}

pub record LookupResult : Type 0 where
  pub server : Str
  pub raw_data : Str
  pub parsed_data : Option ParsedWhoisData
  pub parsing_analysis : List Str
  pub status : LookupStatus

pub record WhoisResponse : Type 0 where
  pub domain : Str
  pub whois_server : Str
  pub raw_data : Str
  pub parsed_data : Option ParsedWhoisData
  pub lookup_status : LookupStatus
  pub cached : Bool
  pub query_time_ms : ℕ
  pub parsing_analysis : Option (List Str)
