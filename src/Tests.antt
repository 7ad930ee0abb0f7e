-- ===== src/Tests.antt =====
-- Test data shared by the examples: a crate parameter of each kind, made concrete.
mod Service
mod Cached
mod Text
mod Registry
mod Exchange
mod Looping
mod Rdap
mod Sockets
mod Server
mod Tasks
mod Routes
use rust_whois.Prelude.{
  ℕ, suc, ℤ, pos, Bool, true, false, List, [], ◌∷◌, ◌++◌, Option, none, some, inr, if◌then◌else◌,
  ◌==◌,
}
use rust_whois.Text.{Str, codes}
use rust_whois.Error.{Result, ok, err, timeout, WhoisError}
use rust_whois.Data.{
  LookupStatus, found, not_found, ParsedWhoisData, new, LookupResult, WhoisResponse,
}
use rust_whois.Dates.{Chrono, Clock}
use rust_whois.Cache.{Cache, CacheBackend, CacheService}

-- A date library that reads no date.
abbrev pub no_dates : Chrono
no_dates = record {
  DateTime = Unit;
  NaiveDate = Unit;
  dateparser = λ s. none;
  parse_from_str = λ s format. none;
  midnight = λ d. none;
  num_days = λ a b. pos 0;
}

abbrev pub at_once : Clock no_dates
at_once = record { first = tt; second = tt; third = tt }

-- A cache with one slot.
abbrev pub one_slot : Cache (Option WhoisResponse)
one_slot = record {
  lookup = λ key l. (l, l);
  insert = λ key response ttl l. if ttl == 0 then none else some response;
}

abbrev pub result : LookupResult
result = record {
  server = codes "whois.example";
  raw_data = codes "Registrar: A";
  parsed_data = some new;
  parsing_analysis = [];
  status = found;
}

abbrev pub response : WhoisResponse
response = record {
  domain = codes "a.example";
  whois_server = codes "WHOIS: whois.example";
  raw_data = codes "Registrar: A";
  parsed_data = some new;
  lookup_status = not_found;
  cached = false;
  query_time_ms = 7;
  parsing_analysis = none;
}
