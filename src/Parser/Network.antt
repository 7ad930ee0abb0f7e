-- ===== src/Parser/Network.antt =====
-- `parse_ip_whois_data_with_analysis`.
pub mod Registrar
use rust_whois.Prelude.{
  ℕ, zero, suc, ◌+◌, ◌/◌, ◌%◌, ◌<◌, Bool, true, false, not, ◌&&◌, ◌||◌, List, [], ◌∷◌, ◌++◌, Option,
  none, some, if◌then◌else◌, is_none, is_some, String, any, length, ltb,
}
use rust_whois.Text.{
  Str, codes, str_eq, starts_with, CaseMap, contains, contains_char, mem_str, to_lowercase, trim,
  lines,
}
use rust_whois.Data.{ParsedWhoisData, new}
use rust_whois.Parser.Match.{first_arm}
use rust_whois.Parser.Number.{show_nat}
use rust_whois.Parser.Domain.{key_value, store_pair}
use rust_whois.Dates.{Chrono, Clock, calculate_age_fields}

-- The variables of the loop.
pub record State : Type 0 where
  pub parsed : ParsedWhoisData
  pub org_from_netname : Bool
  pub analysis : List Str

-- `matches!(key, "a" | "b" | ...)`
unfoldable pub one_of : Str → List Str → Bool
unfolding mem_str
one_of key names = mem_str names key

abbrev pub is_org : Str → Bool
is_org k = one_of k (codes "orgname" ∷ codes "org-name" ∷ codes "owner" ∷ codes "organization" ∷ [])

abbrev pub is_netname : Str → Bool
is_netname k = one_of k (codes "netname" ∷ [])

abbrev is_updated : Str → Bool
is_updated k =
    one_of k (codes "updated" ∷ codes "lastupdated" ∷ codes "changed" ∷ codes "last-modified" ∷ [])

abbrev is_created : Str → Bool
is_created k = one_of k (codes "created" ∷ codes "regdate" ∷ codes "registration" ∷ [])

abbrev is_tech : Str → Bool
is_tech k =
    contains k (codes "orgtechemail")
    || contains k (codes "tech-c")
    || contains k (codes "technical")

abbrev is_abuse : Str → Bool
is_abuse k =
    contains k (codes "orgabuseemail") || contains k (codes "abuse-c") || contains k (codes "abuse")

abbrev is_email : Str → Bool
is_email k =
    contains k (codes "orgemail") || contains k (codes "e-mail") || contains k (codes "email")

abbrev is_status : Str → Bool
is_status k = one_of k (codes "status" ∷ codes "nettype" ∷ [])

abbrev is_range : Str → Bool
is_range k = one_of k (codes "netrange" ∷ codes "inetnum" ∷ codes "cidr" ∷ [])

-- `analysis.push(format!("{label}{value}"))`
abbrev note : State → String → Str → List Str
note s label value = s.analysis ++ ((codes label ++ value) ∷ [])

abbrev org_arm : State → Str → Str → Bool × State
org_arm s k value = (
  is_org k && (is_none s.parsed.registrar || s.org_from_netname),
  record {
    parsed = record (s.parsed) { registrar = some value };
    org_from_netname = false;
    analysis = note s "✓ Organization: " value;
  },
)

abbrev netname_arm : State → Str → Str → Bool × State
netname_arm s k value = (
  is_netname k && is_none s.parsed.registrar,
  record {
    parsed = record (s.parsed) { registrar = some value };
    org_from_netname = true;
    analysis = note s "✓ Network Name: " value;
  },
)

-- The arms behind those two, which leave the registrar alone.
unfoldable pub other_arms : State → Str → Str → List (Bool × State)
other_arms s k value =
    (
      is_updated k && is_none s.parsed.updated_date,
      record s {
        parsed = record (s.parsed) { updated_date = some value };
        analysis = note s "✓ Updated Date: " value;
      },
    )
    ∷ (
      is_created k && is_none s.parsed.creation_date,
      record s {
        parsed = record (s.parsed) { creation_date = some value };
        analysis = note s "✓ Created Date: " value;
      },
    )
    ∷ (
      is_tech k && is_none s.parsed.tech_email && contains_char value b'@',
      record s {
        parsed = record (s.parsed) { tech_email = some value };
        analysis = note s "✓ Tech Email: " value;
      },
    )
    ∷ (
      is_abuse k && is_none s.parsed.admin_email && contains_char value b'@',
      record s {
        parsed = record (s.parsed) { admin_email = some value };
        analysis = note s "✓ Abuse Email: " value;
      },
    )
    ∷ (
      is_email k && is_none s.parsed.registrant_email && contains_char value b'@',
      record s {
        parsed = record (s.parsed) { registrant_email = some value };
        analysis = note s "✓ Contact Email: " value;
      },
    )
    ∷ (
      is_status k && not (mem_str s.parsed.status value),
      record s {
        parsed = record (s.parsed) { status = s.parsed.status ++ (value ∷ []) };
        analysis = note s "✓ Status: " value;
      },
    )
    ∷ (is_range k, record s { analysis = note s "✓ Network Range: " value })
    ∷ []

-- The `match` on the key.
unfoldable pub store_field : State → Str → Str → State
unfolding other_arms
store_field s k value =
    first_arm (org_arm s k value ∷ netname_arm s k value ∷ other_arms s k value) s

-- A blank line or a comment, after trimming; ">>>" is no comment here.
unfoldable pub is_skipped : Str → Bool
is_skipped [] = true
is_skipped line = starts_with line (codes "%") || starts_with line (codes "#")

unfoldable pub parse_line : CaseMap → State → Str → State
parse_line m s raw =
    let line = trim raw in
    if is_skipped line then s else store_pair store_field s (key_value m line)

unfoldable pub parse_lines : CaseMap → State → List Str → State
parse_lines m s [] = s
parse_lines m s (line ∷ ls) = parse_lines m (parse_line m s line) ls

abbrev pub initial : State
initial = record {
  parsed = new;
  org_from_netname = false;
  analysis = codes "=== IP WHOIS PARSING ANALYSIS ===" ∷ [];
}

-- `as_deref().unwrap_or("NOT FOUND")`
abbrev or_not_found : Option Str → Str
or_not_found none = codes "NOT FOUND"
or_not_found (some s) = s

abbrev count_some : List (Option Str) → ℕ
count_some [] = 0
count_some (none ∷ os) = count_some os
count_some (some s ∷ os) = suc (count_some os)

abbrev summary : ParsedWhoisData → List Str
summary p =
    codes "\n=== SUMMARY ==="
    ∷ (codes "Organization: " ++ or_not_found p.registrar)
    ∷ (codes "Created: " ++ or_not_found p.creation_date)
    ∷ (codes "Updated: " ++ or_not_found p.updated_date)
    ∷ (codes "Status entries: " ++ show_nat (length p.status))
    ∷ (codes "Contact emails found: "
        ++ show_nat (count_some (p.registrant_email ∷ p.admin_email ∷ p.tech_email ∷ [])))
    ∷ []

unfoldable pub parse_ip_whois_data_with_analysis :
    CaseMap → (c : Chrono) → Clock c → Str → Option ParsedWhoisData × List Str
parse_ip_whois_data_with_analysis m c now text =
    let s = parse_lines m initial (lines text) in
    let p = calculate_age_fields c now s.parsed in (some p, s.analysis ++ summary p)
