-- ===== src/Rdap.antt =====
-- src/rdap.rs: the RDAP client.
pub mod Json
pub mod Vcard
pub mod Domain
pub mod Network
pub mod Query
pub mod Discovery
pub mod Lookup
pub mod Bootstrap
