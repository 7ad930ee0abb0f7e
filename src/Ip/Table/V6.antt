-- ===== src/Ip/Table/V6.antt =====
-- The rows of `ipv6_ranges`.
use rust_whois.Prelude.{List, [], ◌∷◌}
use rust_whois.Ip.Table.Base.{Row, row, ipv6_range, afrinic, apnic, arin, lacnic, ripe}

-- All five registries.
unfoldable pub ipv6_rows : List Row
unfolding ipv6_range
ipv6_rows =
    row (ipv6_range "2001:400::" "2001:5ff:ffff:ffff:ffff:ffff:ffff:ffff") arin
    ∷ row (ipv6_range "2600::" "26ff:ffff:ffff:ffff:ffff:ffff:ffff:ffff") arin
    ∷ row (ipv6_range "2610::" "261f:ffff:ffff:ffff:ffff:ffff:ffff:ffff") arin
    ∷ row (ipv6_range "2620::" "262f:ffff:ffff:ffff:ffff:ffff:ffff:ffff") arin
    ∷ row (ipv6_range "2001:600::" "2001:7ff:ffff:ffff:ffff:ffff:ffff:ffff") ripe
    ∷ row (ipv6_range "2a00::" "2aff:ffff:ffff:ffff:ffff:ffff:ffff:ffff") ripe
    ∷ row (ipv6_range "2001:200::" "2001:3ff:ffff:ffff:ffff:ffff:ffff:ffff") apnic
    ∷ row (ipv6_range "2400::" "24ff:ffff:ffff:ffff:ffff:ffff:ffff:ffff") apnic
    ∷ row (ipv6_range "2001:c00::" "2001:dff:ffff:ffff:ffff:ffff:ffff:ffff") apnic
    ∷ row (ipv6_range "2800::" "28ff:ffff:ffff:ffff:ffff:ffff:ffff:ffff") lacnic
    ∷ row (ipv6_range "2801::" "2801:1ff:ffff:ffff:ffff:ffff:ffff:ffff") lacnic
    ∷ row (ipv6_range "2001:4200::" "2001:43ff:ffff:ffff:ffff:ffff:ffff:ffff") afrinic
    ∷ row (ipv6_range "2c00::" "2cff:ffff:ffff:ffff:ffff:ffff:ffff:ffff") afrinic
    ∷ []
