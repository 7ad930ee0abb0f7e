-- ===== src/Parser/Report.antt =====
-- src/parser.rs: `parse_whois_data_with_analysis`.
use rust_whois.Prelude.{ℕ, suc, List, [], ◌∷◌, ◌++◌, Option, none, some, if◌then◌else◌, length}
use rust_whois.Text.{Str, CaseMap, codes, contains, lines, to_lowercase, trim}
use rust_whois.Data.{ParsedWhoisData}
use rust_whois.Dates.{Chrono, Clock}
use rust_whois.Parser.Number.{show_nat}
use rust_whois.Parser.Domain.{parse_whois_data}

-- `as_deref().unwrap_or("NOT FOUND")`
abbrev or_not_found : Option Str → Str
or_not_found none = codes "NOT FOUND"
or_not_found (some s) = s

-- The lines, numbered from `i + 1`, that contain `word` in lower case.
unfoldable pub lines_containing : CaseMap → Str → ℕ → List Str → List Str
unfolding show_nat
lines_containing m word i [] = []
lines_containing m word i (line ∷ ls) =
    let rest = lines_containing m word (suc i) ls in
    if contains (to_lowercase m line) word
    then (codes "Line " ++ show_nat (suc i) ++ codes ": " ++ trim line) ∷ rest
    else rest

unfoldable pub parse_whois_data_with_analysis :
    CaseMap → (c : Chrono) → Clock c → Str → ParsedWhoisData × List Str
unfolding parse_whois_data lines_containing show_nat
parse_whois_data_with_analysis m c now text =
    let parsed = parse_whois_data m c now text in
    let found =
      codes "=== PARSING ANALYSIS ==="
      ∷ (codes "✓ Registrar: " ++ or_not_found parsed.registrar)
      ∷ (codes "✓ Creation Date: " ++ or_not_found parsed.creation_date)
      ∷ (codes "✓ Expiration Date: " ++ or_not_found parsed.expiration_date)
      ∷ (codes "✓ Updated Date: " ++ or_not_found parsed.updated_date)
      ∷ (codes "✓ Registrant Name: " ++ or_not_found parsed.registrant_name)
      ∷ (codes "✓ Name Servers: " ++ show_nat (length parsed.name_servers) ++ codes " found")
      ∷ (codes "✓ Status: " ++ show_nat (length parsed.status) ++ codes " found")
      ∷ [] in
    (
      parsed,
      found
          ++ (codes "\n=== LINES CONTAINING 'REGISTRANT' ==="
              ∷ lines_containing m (codes "registrant") 0 (lines text))
          ++ (codes "\n=== LINES CONTAINING 'EXPIR' ==="
              ∷ lines_containing m (codes "expir") 0 (lines text)),
    )
