-- ===== src/Ip/Table/Apnic.antt =====
-- The APNIC rows of `ipv4_ranges`.
use rust_whois.Prelude.{List, [], ◌∷◌}
use rust_whois.Ip.Table.Base.{Row, row, ipv4_range, apnic}

-- APNIC (Asia-Pacific)
unfoldable pub apnic_rows : List Row
unfolding ipv4_range
apnic_rows =
    row (ipv4_range "1.0.0.0" "1.255.255.255") apnic
    ∷ row (ipv4_range "14.0.0.0" "14.255.255.255") apnic
    ∷ row (ipv4_range "27.0.0.0" "27.255.255.255") apnic
    ∷ row (ipv4_range "36.0.0.0" "36.255.255.255") apnic
    ∷ row (ipv4_range "39.0.0.0" "39.255.255.255") apnic
    ∷ row (ipv4_range "42.0.0.0" "42.255.255.255") apnic
    ∷ row (ipv4_range "43.0.0.0" "43.255.255.255") apnic
    ∷ row (ipv4_range "49.0.0.0" "49.255.255.255") apnic
    ∷ row (ipv4_range "58.0.0.0" "58.255.255.255") apnic
    ∷ row (ipv4_range "59.0.0.0" "59.255.255.255") apnic
    ∷ row (ipv4_range "60.0.0.0" "60.255.255.255") apnic
    ∷ row (ipv4_range "61.0.0.0" "61.255.255.255") apnic
    ∷ row (ipv4_range "101.0.0.0" "101.255.255.255") apnic
    ∷ row (ipv4_range "103.0.0.0" "103.255.255.255") apnic
    ∷ row (ipv4_range "106.0.0.0" "106.255.255.255") apnic
    ∷ row (ipv4_range "110.0.0.0" "110.255.255.255") apnic
    ∷ row (ipv4_range "111.0.0.0" "111.255.255.255") apnic
    ∷ row (ipv4_range "112.0.0.0" "112.255.255.255") apnic
    ∷ row (ipv4_range "113.0.0.0" "113.255.255.255") apnic
    ∷ row (ipv4_range "114.0.0.0" "114.255.255.255") apnic
    ∷ row (ipv4_range "115.0.0.0" "115.255.255.255") apnic
    ∷ row (ipv4_range "116.0.0.0" "116.255.255.255") apnic
    ∷ row (ipv4_range "117.0.0.0" "117.255.255.255") apnic
    ∷ row (ipv4_range "118.0.0.0" "118.255.255.255") apnic
    ∷ row (ipv4_range "119.0.0.0" "119.255.255.255") apnic
    ∷ row (ipv4_range "120.0.0.0" "120.255.255.255") apnic
    ∷ row (ipv4_range "121.0.0.0" "121.255.255.255") apnic
    ∷ row (ipv4_range "122.0.0.0" "122.255.255.255") apnic
    ∷ row (ipv4_range "123.0.0.0" "123.255.255.255") apnic
    ∷ row (ipv4_range "124.0.0.0" "124.255.255.255") apnic
    ∷ row (ipv4_range "125.0.0.0" "125.255.255.255") apnic
    ∷ row (ipv4_range "126.0.0.0" "126.255.255.255") apnic
    ∷ row (ipv4_range "133.0.0.0" "133.255.255.255") apnic
    ∷ row (ipv4_range "150.0.0.0" "150.255.255.255") apnic
    ∷ row (ipv4_range "153.0.0.0" "153.255.255.255") apnic
    ∷ row (ipv4_range "163.0.0.0" "163.255.255.255") apnic
    ∷ row (ipv4_range "202.0.0.0" "202.255.255.255") apnic
    ∷ row (ipv4_range "203.0.0.0" "203.255.255.255") apnic
    ∷ row (ipv4_range "210.0.0.0" "210.255.255.255") apnic
    ∷ row (ipv4_range "211.0.0.0" "211.255.255.255") apnic
    ∷ row (ipv4_range "218.0.0.0" "218.255.255.255") apnic
    ∷ row (ipv4_range "219.0.0.0" "219.255.255.255") apnic
    ∷ row (ipv4_range "220.0.0.0" "220.255.255.255") apnic
    ∷ row (ipv4_range "221.0.0.0" "221.255.255.255") apnic
    ∷ row (ipv4_range "222.0.0.0" "222.255.255.255") apnic
    ∷ row (ipv4_range "223.0.0.0" "223.255.255.255") apnic
    ∷ []
