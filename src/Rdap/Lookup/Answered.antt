-- ===== src/Rdap/Lookup/Answered.antt =====
-- src/rdap.rs: what `lookup` and `lookup_ip` answer.
use rust_whois.Prelude.{◌≡◌, refl, sym, ◌∙◌, ap, List, Option, none, some, ◌⊎◌, ℕ}
use rust_whois.Text.{Str, codes}
use rust_whois.Error.{Result, ok, err}
use rust_whois.Data.{LookupStatus, found, not_found, rate_limited, ParsedWhoisData, LookupResult}
use rust_whois.Dates.{Chrono, Clock}
use rust_whois.Tld.{Psl, extract_tld}
use rust_whois.Retry.{Retry}
use rust_whois.Rdap.Domain.{RdapDomainResponse, parse_rdap_response}
use rust_whois.Rdap.Query.{Http, Answer, query_rdap_resource}
use rust_whois.Rdap.Bootstrap.{Readings, Service, Outcome, returns, panics}
use rust_whois.Rdap.Discovery.{RdapBootstrap, find_rdap_server}
use rust_whois.Rdap.Discovery.Cached
use rust_whois.Rdap.Discovery.Cached.{resolved, IsCurrent, Names, find_rdap_server-Answered}
use rust_whois.Rdap.Lookup.{result_of, reported, at_server, at_tld, lookup}

-- What is parsed of a text under a status: nothing after a 404, and else what the parser makes of it.
abbrev pub parsed_under :
    (Str → Option ParsedWhoisData × List Str) → LookupStatus → Str → Option ParsedWhoisData
parsed_under parse found raw_data = (parse raw_data).0
parsed_under parse not_found raw_data = none
parsed_under parse rate_limited raw_data = (parse raw_data).0

module _ (psl : Psl) (parse : Str → Option ParsedWhoisData × List Str) (domain : Str) where
  -- A result is of the server that the data held names for the domain's top-level domain.
  abbrev pub Reports : Option RdapBootstrap → Outcome (Result LookupResult) → Type 0
  Reports content panics = ⊥
  Reports content (returns (err e)) = Unit
  Reports content (returns (ok r)) =
      ((tld : Str) × (extract_tld psl domain ≡ ok tld) × (resolved content tld ≡ some r.server))
      × (r.parsed_data ≡ parsed_under parse r.status r.raw_data)

parsed_data-result_of :
    (parse : Str → Option ParsedWhoisData × List Str) (absent server raw_data : Str)
    (status : LookupStatus)
    → let r = result_of parse absent server raw_data status in
      (r.server ≡ server) × (r.parsed_data ≡ parsed_under parse r.status r.raw_data)
parsed_data-result_of parse absent server raw_data found = (refl, refl)
parsed_data-result_of parse absent server raw_data not_found = (refl, refl)
parsed_data-result_of parse absent server raw_data rate_limited = (refl, refl)

module _ {W : Type 0} (http : Http W) (retry : Retry) (max : ℕ) (c : Chrono) (now : Clock c)
    (psl : Psl) (from_str : Str → Str ⊎ RdapDomainResponse) (fetch : W → Result RdapBootstrap × W)
    (at : Readings) (domain : Str) where
  abbrev parse : Str → Option ParsedWhoisData × List Str
  parse = parse_rdap_response from_str c now

  abbrev LookedUp : Outcome (Result LookupResult) × Service RdapBootstrap → Type 0
  LookedUp (answer, s) = Reports psl parse domain s.bootstrap.content answer × IsCurrent s

  reported-Reports :
      (content : Option RdapBootstrap) (tld absent server : Str) (answer : Answer)
      → extract_tld psl domain ≡ ok tld
      → resolved content tld ≡ some server
      → Reports psl parse domain content (returns (reported parse absent server answer))
  reported-Reports content tld absent server (err e) extracted named = tt
  reported-Reports content tld absent server (ok (raw_data, status)) extracted named =
      let (served, parsed) = parsed_data-result_of parse absent server raw_data status in
      ((tld, extracted, named ∙ ap some (sym served)), parsed)

  at_server-LookedUp :
      (tld : Str) (found_server : Outcome (Result Str) × Service RdapBootstrap) (w : W)
      → extract_tld psl domain ≡ ok tld
      → Cached.Answered fetch at tld found_server
      → LookedUp (at_server http retry max c now psl from_str fetch at domain found_server w).0
  at_server-LookedUp tld (panics, s) w extracted (named, current) = elim named [ ]
  at_server-LookedUp tld (returns (err e), s) w extracted (named, current) = (tt, current)
  at_server-LookedUp tld (returns (ok server), s) w extracted (named, current) = (
    reported-Reports s.bootstrap.content tld _ server
        (query_rdap_resource http max (codes "domain") retry server domain w).0 extracted named,
    current,
  )

  -- Where every cached server is the one that the data held named, a lookup of a domain does not
  -- panic, and its result is of the server that the data then held names for the top-level domain
  -- of the domain. After a 404 nothing is parsed, and else the parsed data is what the parser makes
  -- of the text. Every cached server is again the one that the data then held names.
  pub lookup-LookedUp :
      (s : Service RdapBootstrap) (w : W)
      → IsCurrent s
      → let ((answer, s'), w') = lookup http retry max c now psl from_str fetch at domain s w in
        Reports psl (parse_rdap_response from_str c now) domain s'.bootstrap.content answer
        × IsCurrent s'
  unfolding lookup
  lookup-LookedUp s w current = go (extract_tld psl domain) refl
    where
      go :
          (tld : Result Str)
          → extract_tld psl domain ≡ tld
          → LookedUp (at_tld http retry max c now psl from_str fetch at domain tld s w).0
      go (err e) extracted = (tt, current)
      go (ok tld) extracted =
          let found_server = find_rdap_server fetch at tld s w in
          at_server-LookedUp tld found_server.0 found_server.1 extracted
            (find_rdap_server-Answered fetch at tld s w current)
