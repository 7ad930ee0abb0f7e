-- ===== src/Ip.antt =====
-- src/ip.rs: validated addresses, the registries, the allocation tables and the detection of the
-- registry of an address. `std::net` parsing and printing is in the children Parse and Show.
mod Addr
mod Parse
mod Show
mod Special
mod Table
mod Tests
mod Examples
pub mod Validated
pub mod Tables
pub mod Octets
pub mod Blocks
pub mod RoundTrip
pub mod Normalize
pub use Addr.{IpAddr, v4, v6, Ipv4, Ipv6, IsBytes}
unfoldable pub use Parse.{read_ipv4, parse_ipv4, parse_ipv6, parse_ip}
unfoldable pub use Show.{show_ipv4, show_ip}
unfoldable pub use Special.{is_private_or_special}
pub use Table.{Rir, arin, ripe, apnic, lacnic, afrinic, Range, RirDatabase}
unfoldable pub use Table.{
  whois_server, rdap_server, in_range, ipv4_to_u32, ipv6_to_u128, rir_database, find_range,
  search_database,
}
