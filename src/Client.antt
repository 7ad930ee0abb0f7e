-- ===== src/Client.antt =====
-- src/lib.rs: the client, from the text of a query to the response.
pub mod Query
pub mod Lookup
pub mod Build
pub mod Api
