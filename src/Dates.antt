-- ===== src/Dates.antt =====
-- src/dates.rs: `parse_date` and the age fields. The crates `dateparser` and `chrono` and the clock
-- are the parameter `Chrono`.

use mathlib.Core.Option
use rust_whois.Prelude.{ℤ, List, [], ◌∷◌, Option, none, some}
use rust_whois.Text.{Str, codes, trim}
use rust_whois.Data.{ParsedWhoisData}

pub record Chrono : Type 1 where
  pub DateTime : Type 0
  pub NaiveDate : Type 0
  -- `dateparser::parse(s).ok()`
  pub dateparser : Str → Option DateTime
  -- `NaiveDate::parse_from_str(s, format).ok()`
  pub parse_from_str : Str → Str → Option NaiveDate
  -- `and_hms_opt(0, 0, 0)`, as a time in UTC
  pub midnight : NaiveDate → Option DateTime
  -- `(a - b).num_days()`
  pub num_days : DateTime → DateTime → ℤ

-- `WHOIS_DATE_FORMATS`
abbrev pub whois_date_formats : List Str
whois_date_formats = codes "%d-%b-%Y" ∷ codes "%d %b %Y" ∷ codes "%d.%m.%Y" ∷ codes "%Y.%m.%d" ∷ []

module _ (c : Chrono) where
  open c use {DateTime, NaiveDate, dateparser, parse_from_str, midnight, num_days}

  abbrev at_midnight : Option NaiveDate → Option DateTime
  at_midnight none = none
  at_midnight (some d) = midnight d

  -- The loop over the formats.
  unfoldable pub try_formats : Str → List Str → Option DateTime
  try_formats date_str [] = none
  try_formats date_str (format ∷ formats) = elim (at_midnight (parse_from_str date_str format)) [
    | some dt ↦ some dt
    | none ↦ try_formats date_str formats
  ]

  unfoldable pub parse_date : Str → Option DateTime
  unfolding try_formats trim
  parse_date date_str =
      let trimmed = trim date_str in
      elim (dateparser trimmed) [
        | some dt ↦ some dt
        | none ↦ try_formats trimmed whois_date_formats
      ]

  -- `days_since` and `days_until`, at a reading of the clock
  unfoldable pub days_since : DateTime → DateTime → ℤ
  days_since now date = num_days now date

  unfoldable pub days_until : DateTime → DateTime → ℤ
  days_until now date = num_days date now

  -- The three readings of the clock that one call makes.
  pub record Clock : Type 0 where
    pub first : DateTime
    pub second : DateTime
    pub third : DateTime

  abbrev parsed : Option Str → Option DateTime
  parsed none = none
  parsed (some d) = parse_date d

  unfoldable pub calculate_date_fields :
      Clock → Option Str → Option Str → Option Str → Option ℤ × Option ℤ × Option ℤ
  unfolding parse_date days_since days_until
  calculate_date_fields now creation_date updated_date expiration_date = (
    Option.map (days_since now.first) (parsed creation_date),
    Option.map (days_since now.second) (parsed updated_date),
    Option.map (days_until now.third) (parsed expiration_date),
  )

  -- `ParsedWhoisData::calculate_age_fields` of src/lib.rs
  unfoldable pub calculate_age_fields : Clock → ParsedWhoisData → ParsedWhoisData
  unfolding calculate_date_fields
  calculate_age_fields now p =
      let ages = calculate_date_fields now p.creation_date p.updated_date p.expiration_date in
      record p { created_ago = ages.0; updated_ago = ages.1; expires_in = ages.2 }
