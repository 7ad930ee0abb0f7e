-- ===== src/Rdap/Discovery/Tasks.antt =====
-- src/rdap.rs: `find_rdap_server` as several tasks run it at once on one service. A task is cut where
-- it waits for a lock; a step is what it does from there to the next such place. The bootstrap data
-- is read and written under a mutex that is held during the fetch, so the access is one step, up to
-- `drop(state)`; the clearing of the server cache after it is another.
pub mod History
pub mod Named
pub mod Stale
use rust_whois.Prelude.{
  ℕ, zero, suc, Bool, true, false, ◌&&◌, List, [], ◌∷◌, ◌++◌, Option, none, some, if◌then◌else◌,
  is_some,
}
use rust_whois.Text.{Str, codes}
use rust_whois.Error.{WhoisError, unsupported_tld, Result, ok, err}
use rust_whois.Whois.Servers.{server_of, insert}
use rust_whois.Rdap.Bootstrap.{
  Readings, Service, BootstrapAction, use_cached, fetch, serve_stale, unavailable, Outcome, returns,
  panics, decide, expect_content, fetched, initial, from_secs, bootstrap_refresh_secs,
  bootstrap_retry_secs,
}
use rust_whois.Rdap.Discovery.{RdapBootstrap, resolve}

-- What a step meets: the clock, and the answer to a fetch if it makes one.
pub record Input : Type 0 where
  pub at : Readings
  pub answer : Result RdapBootstrap

-- A lookup of a top-level domain, before it reads the cache, before it takes the mutex, before it
-- clears the cache, with the data, before it writes to the cache, and done.
pub data Task : Type 0 where
  looking missed : Str → Task
  clearing holding : Str → RdapBootstrap → Task
  inserting : (tld server : Str) → Task
  answered : Str → Result Str → Task
  panicked : Task

abbrev pub no_server : Str → Result Str
no_server tld = err (unsupported_tld (codes "No RDAP server found for TLD: " ++ tld))

abbrev pub looked : Str → Option Str → Task
looked tld none = missed tld
looked tld (some server) = answered tld (ok server)

abbrev pub accessed : Str → Outcome (Result RdapBootstrap) → Task
accessed tld panics = panicked
accessed tld (returns (err e)) = answered tld (no_server tld)
accessed tld (returns (ok d)) = holding tld d

abbrev pub found_in : Str → Option Str → Task
found_in tld none = answered tld (no_server tld)
found_in tld (some server) = inserting tld server

-- `Ok(data)` of the fetch, with `is_refresh` or without
abbrev pub arrived : Str → (is_refresh : Bool) → RdapBootstrap → Task
arrived tld true d = clearing tld d
arrived tld false d = holding tld d

abbrev pub fetched_task :
    Input → Service RdapBootstrap → Str → Result RdapBootstrap → Service RdapBootstrap × Task
fetched_task i s tld (ok d) =
    let (outcome, after) = fetched i.at s (ok d) in
    (record s { bootstrap = after.bootstrap }, arrived tld (is_some s.bootstrap.content) d)
fetched_task i s tld (err e) =
    let (outcome, after) = fetched i.at s (err e) in
    (record s { bootstrap = after.bootstrap }, accessed tld outcome)

-- The access under the mutex, by its action.
abbrev pub access :
    Input → Service RdapBootstrap → Str → BootstrapAction → Service RdapBootstrap × Task
access i s tld use_cached = (s, accessed tld (expect_content s.bootstrap.content))
access i s tld serve_stale = (s, accessed tld (expect_content s.bootstrap.content))
access i s tld unavailable = (s, answered tld (no_server tld))
access i s tld fetch = fetched_task i s tld i.answer

unfoldable pub advance : Input → Service RdapBootstrap → Task → Service RdapBootstrap × Task
unfolding decide resolve server_of insert
advance i s (looking tld) = (s, looked tld (server_of tld s.tld_servers))
advance i s (missed tld) = access i s tld (
    decide s.bootstrap (from_secs bootstrap_refresh_secs) (from_secs bootstrap_retry_secs)
      i.at.fresh_at i.at.recent_at)
advance i s (clearing tld d) = (record s { tld_servers = [] }, holding tld d)
advance i s (holding tld d) = (s, found_in tld (resolve d tld))
advance i s (inserting tld server) = (
  record s {
    tld_servers =
        if is_some (server_of tld s.tld_servers)
        then s.tld_servers
        else insert tld server s.tld_servers;
  },
  answered tld (ok server),
)
advance i s (answered tld r) = (s, answered tld r)
advance i s panicked = (s, panicked)

-- All tasks, and all data that was ever held, the last first, which nothing reads.
pub record System : Type 0 where
  pub service : Service RdapBootstrap
  pub tasks : List Task
  pub ever : List RdapBootstrap

abbrev pub held : Option RdapBootstrap → List RdapBootstrap → List RdapBootstrap
held none ever = ever
held (some d) ever = d ∷ ever

-- `RdapService::new`, and no lookup yet
abbrev pub new_system : System
new_system = record { service = initial; tasks = []; ever = [] }

-- A lookup starts, the task at a place of the list makes its next step, or it is dropped there; one
-- that is dropped during a fetch is as one whose fetch failed and that is dropped then.
pub data Move : Type 0 where
  starts : Str → Move
  steps : ℕ → Input → Move
  cancels : ℕ → Move

unfoldable pub advance_at :
    ℕ → Input → Service RdapBootstrap → List Task → Service RdapBootstrap × List Task
unfolding advance
advance_at n i s [] = (s, [])
advance_at zero i s (t ∷ ts) = let (s', t') = advance i s t in (s', t' ∷ ts)
advance_at (suc n) i s (t ∷ ts) = let (s', ts') = advance_at n i s ts in (s', t ∷ ts')

unfoldable pub drop_at : ℕ → List Task → List Task
drop_at n [] = []
drop_at zero (t ∷ ts) = ts
drop_at (suc n) (t ∷ ts) = t ∷ drop_at n ts

unfoldable pub move : System → Move → System
unfolding advance_at drop_at
move m (starts tld) = record m { tasks = m.tasks ++ (looking tld ∷ []) }
move m (steps n i) =
    let (service, tasks) = advance_at n i m.service m.tasks in
    record { service = service; tasks = tasks; ever = held service.bootstrap.content m.ever }
move m (cancels n) = record m { tasks = drop_at n m.tasks }

unfoldable pub run : List Move → System → System
unfolding move
run [] m = m
run (v ∷ vs) m = run vs (move m v)
