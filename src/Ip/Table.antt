-- ===== src/Ip/Table.antt =====
-- `RirDatabase`: the rows of `RirDatabase::new`, which are spelled in the children, and the search.
mod Base
mod Arin
mod Ripe
mod Apnic
mod South
mod V6
pub use Base.{Rir, arin, ripe, apnic, lacnic, afrinic, Range}
unfoldable pub use Base.{whois_server, rdap_server, in_range, ipv4_to_u32, ipv6_to_u128}
use Base.{Row}
use Arin.{arin_rows}
use Ripe.{ripe_rows}
use Apnic.{apnic_rows}
use South.{lacnic_rows, afrinic_rows}
use V6.{ipv6_rows}
use rust_whois.Prelude.{ℕ, Bool, List, [], ◌∷◌, ◌++◌, Option, none, some, if◌then◌else◌}
use rust_whois.Ip.Addr.{IpAddr, v4, v6}

pub record RirDatabase : Type 0 where
  pub ipv4_ranges : List (Range × Rir)
  pub ipv6_ranges : List (Range × Rir)

-- `none` if one of the rows panics
all_rows : List Row → Option (List (Range × Rir))
all_rows [] = some []
all_rows (none ∷ rs) = none
all_rows (some r ∷ rs) = elim (all_rows rs) [ none ↦ none | some l ↦ some (r ∷ l) ]

abbrev database : Option (List (Range × Rir)) → Option (List (Range × Rir)) → Option RirDatabase
database (some a) (some b) = some (record { ipv4_ranges = a; ipv6_ranges = b })
database _ _ = none

-- `RirDatabase::new`; `none` stands for a panic
unfoldable pub rir_database : Option RirDatabase
unfolding all_rows arin_rows ripe_rows apnic_rows lacnic_rows afrinic_rows ipv6_rows
rir_database =
    database (all_rows (arin_rows ++ (ripe_rows ++ (apnic_rows ++ (lacnic_rows ++ afrinic_rows)))))
      (all_rows ipv6_rows)

-- The linear search.
unfoldable pub find_range : List (Range × Rir) → ℕ → Option Rir
unfolding in_range
find_range [] ip = none
find_range ((range, rir) ∷ rs) ip = if in_range range ip then some rir else find_range rs ip

-- `RirDatabase::detect_rir`
unfoldable pub search_database : RirDatabase → IpAddr → Option Rir
unfolding find_range ipv4_to_u32 ipv6_to_u128
search_database db (v4 a) = find_range db.ipv4_ranges (ipv4_to_u32 a)
search_database db (v6 a) = find_range db.ipv6_ranges (ipv6_to_u128 a)
