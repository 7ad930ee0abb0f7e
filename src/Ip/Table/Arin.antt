-- ===== src/Ip/Table/Arin.antt =====
-- The ARIN rows of `ipv4_ranges`.
use rust_whois.Prelude.{List, [], ◌∷◌}
use rust_whois.Ip.Table.Base.{Row, row, ipv4_range, arin}

-- ARIN (North America)
unfoldable pub arin_rows : List Row
unfolding ipv4_range
arin_rows =
    row (ipv4_range "3.0.0.0" "3.255.255.255") arin
    ∷ row (ipv4_range "4.0.0.0" "4.255.255.255") arin
    ∷ row (ipv4_range "6.0.0.0" "6.255.255.255") arin
    ∷ row (ipv4_range "7.0.0.0" "7.255.255.255") arin
    ∷ row (ipv4_range "8.0.0.0" "8.255.255.255") arin
    ∷ row (ipv4_range "9.0.0.0" "9.255.255.255") arin
    ∷ row (ipv4_range "11.0.0.0" "11.255.255.255") arin
    ∷ row (ipv4_range "12.0.0.0" "12.255.255.255") arin
    ∷ row (ipv4_range "13.0.0.0" "13.255.255.255") arin
    ∷ row (ipv4_range "15.0.0.0" "15.255.255.255") arin
    ∷ row (ipv4_range "16.0.0.0" "16.255.255.255") arin
    ∷ row (ipv4_range "17.0.0.0" "17.255.255.255") arin
    ∷ row (ipv4_range "18.0.0.0" "18.255.255.255") arin
    ∷ row (ipv4_range "19.0.0.0" "19.255.255.255") arin
    ∷ row (ipv4_range "20.0.0.0" "20.255.255.255") arin
    ∷ row (ipv4_range "23.0.0.0" "23.255.255.255") arin
    ∷ row (ipv4_range "24.0.0.0" "24.255.255.255") arin
    ∷ row (ipv4_range "32.0.0.0" "32.255.255.255") arin
    ∷ row (ipv4_range "33.0.0.0" "33.255.255.255") arin
    ∷ row (ipv4_range "34.0.0.0" "34.255.255.255") arin
    ∷ row (ipv4_range "35.0.0.0" "35.255.255.255") arin
    ∷ row (ipv4_range "40.0.0.0" "40.255.255.255") arin
    ∷ row (ipv4_range "44.0.0.0" "44.255.255.255") arin
    ∷ row (ipv4_range "47.0.0.0" "47.255.255.255") arin
    ∷ row (ipv4_range "48.0.0.0" "48.255.255.255") arin
    ∷ row (ipv4_range "50.0.0.0" "50.255.255.255") arin
    ∷ row (ipv4_range "52.0.0.0" "52.255.255.255") arin
    ∷ row (ipv4_range "54.0.0.0" "54.255.255.255") arin
    ∷ row (ipv4_range "55.0.0.0" "55.255.255.255") arin
    ∷ row (ipv4_range "56.0.0.0" "56.255.255.255") arin
    ∷ row (ipv4_range "63.0.0.0" "63.255.255.255") arin
    ∷ row (ipv4_range "64.0.0.0" "64.255.255.255") arin
    ∷ row (ipv4_range "65.0.0.0" "65.255.255.255") arin
    ∷ row (ipv4_range "66.0.0.0" "66.255.255.255") arin
    ∷ row (ipv4_range "67.0.0.0" "67.255.255.255") arin
    ∷ row (ipv4_range "68.0.0.0" "68.255.255.255") arin
    ∷ row (ipv4_range "69.0.0.0" "69.255.255.255") arin
    ∷ row (ipv4_range "70.0.0.0" "70.255.255.255") arin
    ∷ row (ipv4_range "71.0.0.0" "71.255.255.255") arin
    ∷ row (ipv4_range "72.0.0.0" "72.255.255.255") arin
    ∷ row (ipv4_range "73.0.0.0" "73.255.255.255") arin
    ∷ row (ipv4_range "74.0.0.0" "74.255.255.255") arin
    ∷ row (ipv4_range "75.0.0.0" "75.255.255.255") arin
    ∷ row (ipv4_range "76.0.0.0" "76.255.255.255") arin
    ∷ row (ipv4_range "96.0.0.0" "96.255.255.255") arin
    ∷ row (ipv4_range "97.0.0.0" "97.255.255.255") arin
    ∷ row (ipv4_range "98.0.0.0" "98.255.255.255") arin
    ∷ row (ipv4_range "99.0.0.0" "99.255.255.255") arin
    ∷ row (ipv4_range "100.0.0.0" "100.63.255.255") arin
    ∷ row (ipv4_range "104.0.0.0" "104.255.255.255") arin
    ∷ row (ipv4_range "107.0.0.0" "107.255.255.255") arin
    ∷ row (ipv4_range "108.0.0.0" "108.255.255.255") arin
    ∷ []
