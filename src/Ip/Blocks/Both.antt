-- ===== src/Ip/Blocks/Both.antt =====
-- `is_private_or_special` of an address of either kind against the lists of address blocks.
use rust_whois.Prelude.{◌≡◌, Bool, any}
use rust_whois.Ip.Addr.{IpAddr, v4, v6}
use rust_whois.Ip.Special.{is_private_or_special}
use rust_whois.Ip.RoundTrip.Bounds.{Fits}
use rust_whois.Ip.Blocks.{in_block, special_blocks, is_private_or_special-in_block}
use rust_whois.Ip.Blocks.Six.{in_block6, special_blocks6, is_private_or_special-in_block6}

abbrev pub in_special_block : IpAddr → Bool
in_special_block (v4 a) = any (in_block a) special_blocks
in_special_block (v6 a) = any (in_block6 a) special_blocks6

-- An address is refused exactly if it lies in one of the CIDR blocks of its kind that the comments
-- name.
pub is_private_or_special-in_special_block :
    (addr : IpAddr) → Fits addr → is_private_or_special addr ≡ in_special_block addr
is_private_or_special-in_special_block (v4 a) h = is_private_or_special-in_block a h
is_private_or_special-in_special_block (v6 a) h = is_private_or_special-in_block6 a h
