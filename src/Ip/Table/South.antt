-- ===== src/Ip/Table/South.antt =====
-- The LACNIC and AFRINIC rows of `ipv4_ranges`.
use rust_whois.Prelude.{List, [], ◌∷◌}
use rust_whois.Ip.Table.Base.{Row, row, ipv4_range, afrinic, lacnic}

-- LACNIC (Latin America and Caribbean)
unfoldable pub lacnic_rows : List Row
unfolding ipv4_range
lacnic_rows =
    row (ipv4_range "177.0.0.0" "177.255.255.255") lacnic
    ∷ row (ipv4_range "179.0.0.0" "179.255.255.255") lacnic
    ∷ row (ipv4_range "181.0.0.0" "181.255.255.255") lacnic
    ∷ row (ipv4_range "186.0.0.0" "186.255.255.255") lacnic
    ∷ row (ipv4_range "187.0.0.0" "187.255.255.255") lacnic
    ∷ row (ipv4_range "189.0.0.0" "189.255.255.255") lacnic
    ∷ row (ipv4_range "190.0.0.0" "190.255.255.255") lacnic
    ∷ row (ipv4_range "191.0.0.0" "191.255.255.255") lacnic
    ∷ row (ipv4_range "200.0.0.0" "200.255.255.255") lacnic
    ∷ row (ipv4_range "201.0.0.0" "201.255.255.255") lacnic
    ∷ []

-- AFRINIC (Africa)
unfoldable pub afrinic_rows : List Row
unfolding ipv4_range
afrinic_rows =
    row (ipv4_range "41.0.0.0" "41.255.255.255") afrinic
    ∷ row (ipv4_range "102.0.0.0" "102.255.255.255") afrinic
    ∷ row (ipv4_range "105.0.0.0" "105.255.255.255") afrinic
    ∷ row (ipv4_range "154.0.0.0" "154.255.255.255") afrinic
    ∷ row (ipv4_range "196.0.0.0" "196.255.255.255") afrinic
    ∷ row (ipv4_range "197.0.0.0" "197.255.255.255") afrinic
    ∷ []
