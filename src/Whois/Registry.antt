-- ===== src/Whois/Registry.antt =====
-- src/whois.rs: finding the server of a top-level domain, and asking it. The network is a
-- parameter. One lookup runs alone: what other tasks do to the server cache meanwhile is left out.
pub mod Heal
use rust_whois.Prelude.{
  Bool, true, false, List, [], ◌∷◌, Option, none, some, if◌then◌else◌, is_some,
}
use rust_whois.Text.{Str, CaseMap, codes, str_eq}
use rust_whois.Error.{WhoisError, unsupported_tld, Result, ok, err}
use rust_whois.Whois.Servers.{Servers, server_of, remove, insert}
use rust_whois.Whois.Referral.{parse_root_server_response, generate_whois_patterns}

-- The queries, each with its timeouts and retries, and the connection test.
pub record Network (W : Type 0) : Type 0 where
  pub raw_whois_query : Str → Str → W → Result Str × W
  pub discovery_whois_query : Str → Str → W → Result Str × W
  pub referral_whois_query : Str → Str → W → Result Str × W
  pub test_whois_server : Str → W → Bool × W

-- `ROOT_WHOIS_SERVERS`
abbrev pub root_server : Str
root_server = codes "whois.iana.org"

-- What a lookup changes: the server cache and the world.
pub record State (W : Type 0) : Type 0 where
  pub tld_servers : Servers
  pub world : W

module _ {W : Type 0} (n : Network W) (m : CaseMap) where
  abbrev referral_in : Result Str → Option Str
  referral_in (ok response) = parse_root_server_response m response
  referral_in (err e) = none

  unfoldable pub query_root_servers_for_tld : Str → W → Option Str × W
  query_root_servers_for_tld tld w =
      let (answer, w') = n.discovery_whois_query root_server tld w in (referral_in answer, w')

  -- The loop over the patterns.
  unfoldable pub first_reachable : List Str → W → Option Str × W
  first_reachable [] w = (none, w)
  first_reachable (pattern ∷ patterns) w =
      let (reachable, w') = n.test_whois_server pattern w in
      let later = first_reachable patterns w' in if reachable then (some pattern, w') else later

  unfoldable pub discover_whois_server_dynamic : Str → W → Option Str × W
  unfolding query_root_servers_for_tld first_reachable
  discover_whois_server_dynamic tld w =
      let (found, w') = query_root_servers_for_tld tld w in
      elim found [
        | none ↦ first_reachable (generate_whois_patterns tld) w'
        | some server ↦
            let (reachable, w'') = n.test_whois_server server w' in
            if reachable
            then (some server, w'')
            else first_reachable (generate_whois_patterns tld) w''
      ]

  abbrev pub remember : Str → Option Str → Servers → W → Result Str × State W
  remember tld none servers w =
      (err (unsupported_tld tld), record { tld_servers = servers; world = w })
  remember tld (some server) servers w = (
    ok server,
    record {
      tld_servers = if is_some (server_of tld servers) then servers else insert tld server servers;
      world = w;
    },
  )

  abbrev pub cached_or_found : Str → Option Str → State W → Result Str × State W
  cached_or_found tld (some server) s = (ok server, s)
  cached_or_found tld none s =
      let (found, w) = discover_whois_server_dynamic tld s.world in
      remember tld found s.tld_servers w

  unfoldable pub find_whois_server : Str → State W → Result Str × State W
  unfolding discover_whois_server_dynamic server_of insert
  find_whois_server tld s = cached_or_found tld (server_of tld s.tld_servers) s

  abbrev pub retried : Str → Str → Result Str → Servers → W → Result (Str × Str) × State W
  retried tld server (ok text) servers w =
      (ok (server, text), record { tld_servers = insert tld server servers; world = w })
  retried tld server (err e) servers w = (err e, record { tld_servers = servers; world = w })

  abbrev pub with_rediscovered :
      (tld failed_server domain : Str)
      → WhoisError
      → Option Str
      → Servers
      → W
      → Result (Str × Str) × State W
  with_rediscovered tld failed_server domain original_error none servers w =
      (err original_error, record { tld_servers = servers; world = w })
  with_rediscovered tld failed_server domain original_error (some server) servers w =
      let (answer, w') = n.raw_whois_query server domain w in
      if str_eq server failed_server
      then (err original_error, record { tld_servers = servers; world = w })
      else retried tld server answer servers w'

  unfoldable pub rediscover_and_retry :
      (tld failed_server domain : Str) → WhoisError → State W → Result (Str × Str) × State W
  unfolding discover_whois_server_dynamic remove insert
  rediscover_and_retry tld failed_server domain original_error s =
      let servers = remove tld s.tld_servers in
      let (found, w) = discover_whois_server_dynamic tld s.world in
      with_rediscovered tld failed_server domain original_error found servers w

  abbrev pub ask_or_heal :
      (tld server domain : Str) → Result Str → State W → Result (Str × Str) × State W
  ask_or_heal tld server domain (ok text) s = (ok (server, text), s)
  ask_or_heal tld server domain (err e) s = rediscover_and_retry tld server domain e s

  abbrev pub ask_found : (tld domain : Str) → Result Str → State W → Result (Str × Str) × State W
  ask_found tld domain (err e) s = (err e, s)
  ask_found tld domain (ok server) s =
      let (answer, w) = n.raw_whois_query server domain s.world in
      ask_or_heal tld server domain answer (record s { world = w })

  -- The first half of `lookup`: the server that answered for the registry, and its answer.
  unfoldable pub ask_registry : (tld domain : Str) → State W → Result (Str × Str) × State W
  unfolding find_whois_server rediscover_and_retry
  ask_registry tld domain s =
      let (found, s') = find_whois_server tld s in ask_found tld domain found s'
