-- ===== src/Lib.antt =====
-- rust-whois: a WHOIS and RDAP lookup service for domains and IP addresses.
--
-- A query goes through Client/Query (lib.rs: validation and detection of its kind) and
-- Client/Lookup (lib.rs: `lookup_with_options`) to the two-tier cache (Cache, cache.rs) and, on a
-- miss, to RDAP first and WHOIS as the fallback; Client/Build puts the two services, with what they
-- keep, behind that interface, and Client/Api has the constructors and the public lookups. The
-- WHOIS client (Whois, whois.rs) finds the server of the top-level domain (Tld, tld.rs;
-- Whois/Registry), asks it, follows referrals (Whois/Follow, with Whois/Referral for reading them
-- out of a response) and merges the two responses (Whois/Lookup, and Whois/LookupIp for addresses);
-- Whois/Socket makes the queries and Whois/Read reads one response into a buffer of BufferPool
-- (buffer_pool.rs). Parser (parser.rs) turns a response into `ParsedWhoisData` (Data, lib.rs), with
-- the age fields of Dates (dates.rs). Ip (ip.rs) validates addresses, finds their registry and
-- tells private and special ones. The RDAP client (Rdap, rdap.rs) looks a domain or an address up
-- (Rdap/Lookup): it keeps the bootstrap data (Rdap/Bootstrap), finds a server in it
-- (Rdap/Discovery), asks it (Rdap/Query) and converts its record (Rdap/Domain, and Rdap/Network for
-- addresses, with Rdap/Vcard for contacts). Both clients retry through Retry. Cache/Redis
-- (redis_cache.rs) is the backend that instances share. Server is the HTTP server: Server/Start
-- (main.rs: `main` up to its state, with `build_client`), Server/Routes (main.rs: the routes, and
-- the response to a request under the timeout), Server/Handlers (main.rs), Server/Metrics
-- (metrics.rs) and Server/RateLimiter (rate_limiter.rs). Config (config.rs) is the configuration
-- with its loading (Config/Load), Error (errors.rs) the errors. The source files are those of src/
-- in the repository.
--
-- Prelude holds shared names, tests on numbers and list lemmas; Text models the operations of
-- Rust's strings that the code uses, over lists of code points. Tests and the files called Tests or
-- Examples run the code on small inputs.
--
-- Each function of the source is a function of the same name. State is passed explicitly: a
-- function that changes the server cache, the cache tiers or the bootstrap data takes the state and
-- returns it. What lies outside the source is a parameter: sockets and the resolver, the crates
-- moka, addr, psl, dateparser, chrono, reqwest, url, backon, redis, crossbeam, governor and config,
-- the parsers of JSON texts, the Unicode case map outside ASCII, and every reading of a clock. The
-- values of serde_json are a data type with the accessors that the code uses. Where a theorem
-- relies on what a crate documents, that is a record of laws: `Retry`, `Timeout`, `Reachable`,
-- `Bounded`, `Overriding`. The HTTP client and the sockets of a theorem put what is sent on a log.
-- Logging and the pauses between retries are left out. A loop is structural recursion on its list;
-- the referral loop recurses on the number of referrals left, which every round that goes on
-- lowers, and printing a number n has n + 1 units of fuel, one more than its digits need. Readers
-- of IPv6 texts recurse on the number of groups left. Rdap/Discovery/Tasks runs any number of
-- lookups of RDAP servers at once: a lookup is cut where it waits for a lock, and a run is a list
-- of steps, in each of which one lookup starts, goes on to its next lock, or is dropped. The mutex
-- of the bootstrap data is held during a fetch, so that access is one step, and the clearing of the
-- server cache after it is another. Everywhere else one task runs at a time: a mutex or the entry
-- API of moka makes each access to the bootstrap data and to a cache key a single step.
--
-- Not modelled: binding the socket, the matching of paths, the layers but the timeout, and the
-- shutdown, which only call libraries; the exporter of the metrics and the limiter itself; the
-- memory of a macOS machine; the semaphores, which nothing closes and which only delay; and what
-- several tasks do at once to the WHOIS server cache, to one cache key or to the pool of buffers.
pub mod Prelude
pub mod Text
pub mod Error
pub mod Ip
pub mod Data
pub mod Dates
pub mod Parser
pub mod Tld
pub mod Retry
pub mod BufferPool
pub mod Server
pub mod Whois
pub mod Rdap
pub mod Config
pub mod Cache
pub mod Client
pub mod Tests
