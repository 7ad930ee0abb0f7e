-- ===== src/Whois/LookupIp/Enrich.antt =====
-- src/whois.rs: what `lookup_ip` refuses, and what it keeps.
use rust_whois.Prelude.{ℕ, ◌≡◌, ◌≢◌, refl, true}
use rust_whois.Text.{Str, CaseMap}
use rust_whois.Error.{ok, err}
use rust_whois.Dates.{Chrono, Clock}
use rust_whois.Ip.{is_private_or_special}
use rust_whois.Ip.Validated
use rust_whois.Ip.Validated.{ValidatedIpAddress, detect_rir, refused}
use rust_whois.Parser.Network.{parse_ip_whois_data_with_analysis}
use rust_whois.Whois.Lookup.Merge.{KeepsData, Keeps-fill, str_eq-differs}
use rust_whois.Whois.Registry.{Network}
use rust_whois.Whois.LookupIp.{merge_ip, lookup_ip}

module _ (m : CaseMap) (c : Chrono) (now later : Clock c) where
  -- The lookup of a private or special address is refused, and no server is asked.
  pub lookup_ip-refused :
      {W : Type 0} (n : Network W) (max_referrals : ℕ) (ip_addr : Str) (ip : ValidatedIpAddress)
      (w : W)
      → Validated.new ip_addr ≡ ok ip
      → is_private_or_special ip.addr ≡ true
      → lookup_ip m c n max_referrals now later ip_addr w ≡ (err (refused ip), w)
  unfolding lookup_ip detect_rir
  lookup_ip-refused n max_referrals ip_addr ip w valid private = rw (valid, private) refl

  -- After a referral to another server, no field that the first registry's response has is missing
  -- from the result.
  pub merge_ip-KeepsData :
      (server raw_data final_server final_data : Str)
      → final_server ≢ server
      → KeepsData
          (parse_ip_whois_data_with_analysis m c later raw_data).0
          (merge_ip m c now later server raw_data final_server final_data).parsed_data
  unfolding merge_ip parse_ip_whois_data_with_analysis
  merge_ip-KeepsData server raw_data final_server final_data new =
      rw (str_eq-differs final_server server new) (Keeps-fill _ _)
