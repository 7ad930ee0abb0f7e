-- ===== src/Ip/Table/Ripe.antt =====
-- The RIPE NCC rows of `ipv4_ranges`.
use rust_whois.Prelude.{List, [], ◌∷◌}
use rust_whois.Ip.Table.Base.{Row, row, ipv4_range, ripe}

-- RIPE NCC (Europe, Middle East, Central Asia)
unfoldable pub ripe_rows : List Row
unfolding ipv4_range
ripe_rows =
    row (ipv4_range "2.0.0.0" "2.255.255.255") ripe
    ∷ row (ipv4_range "5.0.0.0" "5.255.255.255") ripe
    ∷ row (ipv4_range "25.0.0.0" "25.255.255.255") ripe
    ∷ row (ipv4_range "31.0.0.0" "31.255.255.255") ripe
    ∷ row (ipv4_range "37.0.0.0" "37.255.255.255") ripe
    ∷ row (ipv4_range "46.0.0.0" "46.255.255.255") ripe
    ∷ row (ipv4_range "51.0.0.0" "51.255.255.255") ripe
    ∷ row (ipv4_range "53.0.0.0" "53.255.255.255") ripe
    ∷ row (ipv4_range "62.0.0.0" "62.255.255.255") ripe
    ∷ row (ipv4_range "77.0.0.0" "77.255.255.255") ripe
    ∷ row (ipv4_range "78.0.0.0" "78.255.255.255") ripe
    ∷ row (ipv4_range "79.0.0.0" "79.255.255.255") ripe
    ∷ row (ipv4_range "80.0.0.0" "80.255.255.255") ripe
    ∷ row (ipv4_range "81.0.0.0" "81.255.255.255") ripe
    ∷ row (ipv4_range "82.0.0.0" "82.255.255.255") ripe
    ∷ row (ipv4_range "83.0.0.0" "83.255.255.255") ripe
    ∷ row (ipv4_range "84.0.0.0" "84.255.255.255") ripe
    ∷ row (ipv4_range "85.0.0.0" "85.255.255.255") ripe
    ∷ row (ipv4_range "86.0.0.0" "86.255.255.255") ripe
    ∷ row (ipv4_range "87.0.0.0" "87.255.255.255") ripe
    ∷ row (ipv4_range "88.0.0.0" "88.255.255.255") ripe
    ∷ row (ipv4_range "89.0.0.0" "89.255.255.255") ripe
    ∷ row (ipv4_range "90.0.0.0" "90.255.255.255") ripe
    ∷ row (ipv4_range "91.0.0.0" "91.255.255.255") ripe
    ∷ row (ipv4_range "92.0.0.0" "92.255.255.255") ripe
    ∷ row (ipv4_range "93.0.0.0" "93.255.255.255") ripe
    ∷ row (ipv4_range "94.0.0.0" "94.255.255.255") ripe
    ∷ row (ipv4_range "95.0.0.0" "95.255.255.255") ripe
    ∷ row (ipv4_range "109.0.0.0" "109.255.255.255") ripe
    ∷ row (ipv4_range "176.0.0.0" "176.255.255.255") ripe
    ∷ row (ipv4_range "178.0.0.0" "178.255.255.255") ripe
    ∷ row (ipv4_range "185.0.0.0" "185.255.255.255") ripe
    ∷ row (ipv4_range "188.0.0.0" "188.255.255.255") ripe
    ∷ row (ipv4_range "193.0.0.0" "193.255.255.255") ripe
    ∷ row (ipv4_range "194.0.0.0" "194.255.255.255") ripe
    ∷ row (ipv4_range "195.0.0.0" "195.255.255.255") ripe
    ∷ row (ipv4_range "212.0.0.0" "212.255.255.255") ripe
    ∷ row (ipv4_range "213.0.0.0" "213.255.255.255") ripe
    ∷ row (ipv4_range "217.0.0.0" "217.255.255.255") ripe
    ∷ []
