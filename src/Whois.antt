-- ===== src/Whois.antt =====
-- src/whois.rs: the WHOIS client.
pub mod Servers
pub mod Registry
pub mod Lookup
pub mod LookupIp
pub mod Read
pub mod Socket
pub mod Referral
pub mod Follow
