-- ===== src/Tests/Text.antt =====
-- The parsers and the merging of two responses, run on small inputs.
use rust_whois.Prelude.{◌≡◌, refl, false, ◌&&◌, [], ◌∷◌, ◌++◌, some, or_else, ◌↔◌}
use rust_whois.Text.{
  Str, codes, ascii_only, lines, to_lowercase, split_once, trim, trim_start, trim_end,
  is_whitespace, contains, str_eq, strip_suffix, contains_any, contains_char, starts_with,
  lower_from, to_ascii_lowercase, mem_str, first_word,
}
use rust_whois.Data.{found, not_found, rate_limited, ParsedWhoisData, new, fill_missing_from}
use rust_whois.Dates.{calculate_age_fields, calculate_date_fields}
use rust_whois.Parser.Report.{parse_whois_data_with_analysis}
use rust_whois.Parser.Classify.{
  HasNoRecord, Mentions, rate_limit_patterns, not_found_patterns, classify_response,
  has_record_data, mentions, classify_response_iff,
}
use rust_whois.Parser.Domain.{
  parse_lines, parse_line, is_skipped, key_value, store_field, arms, is_address, push_new,
  parse_whois_data,
}
use rust_whois.Parser.Domain.FirstWins.{Extends, parse_lines-Extends}
use rust_whois.Parser.Domain.Clean.{IsClean, parse_whois_data-IsClean}
use rust_whois.Parser.Network.{is_org, is_netname, parse_ip_whois_data_with_analysis}
use rust_whois.Parser.Network.Registrar.{first_value, parse_ip-registrar}
use rust_whois.Whois.Referral.{
  extract_whois_server, referral_of_line, is_referral_key, sanitize_referral_value, plain_host,
  slice_from,
}
use rust_whois.Whois.Referral.Host.{IsHost, extract_whois_server-IsHost}
use rust_whois.Whois.Lookup.{is_rate_limited, read, merge}
use rust_whois.Whois.Lookup.Merge.{KeepsData, merge-is_rate_limited, merge-KeepsData}
use rust_whois.Tests.{no_dates, at_once}

abbrev registry_server : Str
registry_server = codes "whois.nic.example"

abbrev registry_text : Str
registry_text = codes "Registrar: A\nDomain Status: ok\n"

abbrev referral_server : Str
referral_server = codes "whois.a.example"

abbrev referral_text : Str
referral_text = codes "Tech Email: t@a.example\n"

abbrev throttled : Str
throttled = codes "Query rate limit exceeded\n"

parse_ip-registrar_example :
    (p : ParsedWhoisData) × ((parse_ip_whois_data_with_analysis ascii_only no_dates at_once
        (codes "netname: N\norgname: O")).0
      ≡ some p)
    × (p.registrar
        ≡ or_else
            (first_value ascii_only is_org (lines (codes "netname: N\norgname: O")))
            (first_value ascii_only is_netname (lines (codes "netname: N\norgname: O"))))
parse_ip-registrar_example =
    parse_ip-registrar ascii_only no_dates at_once (codes "netname: N\norgname: O")

parse_lines-Extends_example :
    Extends
      (parse_lines ascii_only new (codes "Registrar: A" ∷ []))
      (parse_lines ascii_only new ((codes "Registrar: A" ∷ []) ++ (codes "Registrar: B" ∷ [])))
parse_lines-Extends_example =
    parse_lines-Extends ascii_only new (codes "Registrar: A" ∷ []) (codes "Registrar: B" ∷ [])

parse_whois_data-IsClean_example :
    IsClean ascii_only (parse_whois_data ascii_only no_dates at_once referral_text)
parse_whois_data-IsClean_example =
    parse_whois_data-IsClean ascii_only no_dates at_once referral_text

abbrev arin_line : Str
arin_line = codes "ReferralServer: whois://whois.ripe.net:43/"

extracted : extract_whois_server ascii_only arin_line ≡ some (codes "whois.ripe.net")
unfolding extract_whois_server lines referral_of_line split_once trim is_whitespace is_referral_key
    contains to_lowercase str_eq sanitize_referral_value plain_host strip_suffix slice_from
    contains_any
extracted = refl

extract_whois_server-IsHost_example : IsHost (codes "whois.ripe.net")
extract_whois_server-IsHost_example =
    extract_whois_server-IsHost ascii_only arin_line (codes "whois.ripe.net") extracted

classify_response_iff_example :
    ((classify_response ascii_only throttled new ≡ rate_limited)
      ↔ (HasNoRecord new × Mentions (to_lowercase ascii_only throttled) rate_limit_patterns))
    × ((classify_response ascii_only throttled new ≡ not_found) ↔ (
        HasNoRecord new
        × (¬ (Mentions (to_lowercase ascii_only throttled) rate_limit_patterns))
        × Mentions (to_lowercase ascii_only throttled) not_found_patterns))
    × ((classify_response ascii_only throttled new ≡ found) ↔ (
        HasNoRecord new
        → (¬ (Mentions (to_lowercase ascii_only throttled) rate_limit_patterns))
          × (¬ (Mentions (to_lowercase ascii_only throttled) not_found_patterns))))
classify_response_iff_example = classify_response_iff ascii_only throttled new

merge-is_rate_limited_example :
    is_rate_limited
      (merge ascii_only no_dates at_once at_once registry_server registry_text referral_server
        throttled).status
    ≡ (is_rate_limited (read ascii_only no_dates at_once referral_server throttled).status
        && is_rate_limited (read ascii_only no_dates at_once registry_server registry_text).status)
merge-is_rate_limited_example =
    merge-is_rate_limited ascii_only no_dates at_once at_once registry_server registry_text
      referral_server throttled (λ e. cc)

usable :
    is_rate_limited
      (merge ascii_only no_dates at_once at_once registry_server registry_text referral_server
        referral_text).status
    ≡ false
unfolding merge read str_eq has_record_data calculate_age_fields calculate_date_fields parse_lines
    lines parse_line is_skipped is_whitespace starts_with key_value split_once store_field arms
    contains to_lowercase lower_from to_ascii_lowercase is_address contains_char mentions
    fill_missing_from classify_response parse_whois_data parse_whois_data_with_analysis trim
    trim_start trim_end mem_str push_new first_word rate_limit_patterns not_found_patterns
usable = refl

merge-KeepsData_example :
    KeepsData
      (read ascii_only no_dates at_once registry_server registry_text).parsed_data
      (merge ascii_only no_dates at_once at_once registry_server registry_text referral_server
        referral_text).parsed_data
merge-KeepsData_example =
    merge-KeepsData ascii_only no_dates at_once at_once registry_server registry_text
      referral_server referral_text (λ e. cc) usable
