-- ===== src/Rdap/Discovery/Tasks/Named.antt =====
-- src/rdap.rs: the servers that any interleaving of lookups stores and answers.
use mathlib.Core.List.{Memᴰ}
use rust_whois.Prelude.{
  ℕ, zero, suc, ◌≡◌, refl, Bool, true, false, List, [], ◌∷◌, Option, none, some, if_rule, is_some,
  All, All-append, ◌⊎◌, inl, inr, arith,
}
use rust_whois.Text.{Str}
use rust_whois.Error.{Result, ok, err}
use rust_whois.Whois.Servers.{server_of, insert, insert-Entries, server_of-Entries}
use rust_whois.Rdap.Bootstrap.{
  Service, BootstrapState, BootstrapAction, use_cached, fetch, serve_stale, unavailable, decide,
  expect_content, stale_or,
}
use rust_whois.Rdap.Discovery.{RdapBootstrap, resolve}
use rust_whois.Rdap.Discovery.Tasks.{
  Input, Task, looking, missed, clearing, holding, inserting, answered, panicked, looked, accessed,
  found_in, arrived, fetched_task, access, advance, System, held, Move, starts, steps, cancels,
  advance_at, drop_at, move, run, new_system, no_server,
}
use rust_whois.Rdap.Discovery.Tasks.History.{
  IsNamed, Cached, Sound, Holds, Cached-∷, Cached-held, Sound-held, All-Sound-held, Holds-held,
}

decide-held :
    (s : BootstrapState RdapBootstrap) (refresh retry fresh_at recent_at : ℕ)
    → ((decide s refresh retry fresh_at recent_at ≡ use_cached)
        ⊎ (decide s refresh retry fresh_at recent_at ≡ serve_stale))
    → is_some s.content ≡ true
unfolding decide
decide-held s refresh retry fresh_at recent_at used = ground arith

-- After a step: the service, and the task, with the data that is then held.
abbrev Stepped : List RdapBootstrap → Service RdapBootstrap × Task → Type 0
Stepped ever (s, t) =
    let ever' = held s.bootstrap.content ever in Cached ever' s.tld_servers × Sound ever' t

module _ (ever : List RdapBootstrap) (s : Service RdapBootstrap)
    (cached : Cached ever s.tld_servers) where
  reused-Sound :
      (tld : Str)
      → Holds ever s.bootstrap.content
      → is_some s.bootstrap.content ≡ true
      → Sound ever (accessed tld (expect_content s.bootstrap.content))
  reused-Sound tld holds has = go s.bootstrap.content holds has
    where
      go :
          (o : Option RdapBootstrap)
          → Holds ever o
          → is_some o ≡ true
          → Sound ever (accessed tld (expect_content o))
      go none h e = cc
      go (some d) h e = h

  kept-Stepped : (t : Task) → Sound ever t → Stepped ever (s, t)
  kept-Stepped t sound = (
    Cached-held ever s.bootstrap.content s.tld_servers cached,
    Sound-held ever s.bootstrap.content t sound,
  )

  fetched_task-Stepped :
      (i : Input) (tld : Str) (answer : Result RdapBootstrap)
      → Holds ever s.bootstrap.content
      → Stepped ever (fetched_task i s tld answer)
  fetched_task-Stepped i tld (ok d) holds =
      (Cached-∷ ever d s.tld_servers cached, landed (is_some s.bootstrap.content))
    where
      landed : (refresh : Bool) → Sound (d ∷ ever) (arrived tld refresh d)
      landed true = Memᴰ.head refl
      landed false = Memᴰ.head refl
  fetched_task-Stepped i tld (err e) holds = (
    Cached-held ever s.bootstrap.content s.tld_servers cached,
    fallen_back s.bootstrap.content holds,
  )
    where
      fallen_back :
          (o : Option RdapBootstrap)
          → Holds ever o
          → Sound (held s.bootstrap.content ever) (accessed tld (stale_or e o))
      fallen_back none h = tt
      fallen_back (some d) h = Sound-held ever s.bootstrap.content (holding tld d) h

  access-Stepped :
      (i : Input) (tld : Str) (action : BootstrapAction)
      → Holds ever s.bootstrap.content
      → ((action ≡ use_cached) ⊎ (action ≡ serve_stale) → is_some s.bootstrap.content ≡ true)
      → Stepped ever (access i s tld action)
  access-Stepped i tld use_cached holds has =
      kept-Stepped (accessed tld (expect_content s.bootstrap.content))
        (reused-Sound tld holds (has (inl refl)))
  access-Stepped i tld serve_stale holds has =
      kept-Stepped (accessed tld (expect_content s.bootstrap.content))
        (reused-Sound tld holds (has (inr refl)))
  access-Stepped i tld unavailable holds has = kept-Stepped (answered tld (no_server tld)) tt
  access-Stepped i tld fetch holds has = fetched_task-Stepped i tld i.answer holds

  looked-Sound :
      (tld : Str) (server : Option Str)
      → server_of tld s.tld_servers ≡ server
      → Sound ever (looked tld server)
  looked-Sound tld none e = tt
  looked-Sound tld (some server) e =
      server_of-Entries (IsNamed ever) tld server s.tld_servers cached e

  found_in-Sound :
      (tld : Str) (d : RdapBootstrap) (server : Option Str)
      → Memᴰ d ever
      → resolve d tld ≡ server
      → Sound ever (found_in tld server)
  found_in-Sound tld d none m e = tt
  found_in-Sound tld d (some server) m e = (d, m, e)

  advance-Stepped :
      (i : Input) (t : Task)
      → Holds ever s.bootstrap.content
      → Sound ever t
      → Stepped ever (advance i s t)
  unfolding advance
  advance-Stepped i (looking tld) holds sound =
      kept-Stepped (looked tld (server_of tld s.tld_servers)) (looked-Sound tld _ refl)
  advance-Stepped i (missed tld) holds sound =
      access-Stepped i tld _ holds (decide-held s.bootstrap _ _ i.at.fresh_at i.at.recent_at)
  advance-Stepped i (clearing tld d) holds sound =
      (tt, Sound-held ever s.bootstrap.content (holding tld d) sound)
  advance-Stepped i (holding tld d) holds sound =
      kept-Stepped (found_in tld (resolve d tld)) (found_in-Sound tld d _ sound refl)
  advance-Stepped i (inserting tld server) holds named = (
    Cached-held ever s.bootstrap.content _ (
        if_rule (Cached ever) (is_some (server_of tld s.tld_servers)) s.tld_servers
          (insert tld server s.tld_servers) (λ _. cached)
          (λ _. insert-Entries (IsNamed ever) tld server s.tld_servers named cached)),
    Sound-held ever s.bootstrap.content (answered tld (ok server)) named,
  )
  advance-Stepped i (answered tld (ok server)) holds sound =
      kept-Stepped (answered tld (ok server)) sound
  advance-Stepped i (answered tld (err e)) holds sound = kept-Stepped (answered tld (err e)) tt
  advance-Stepped i panicked holds sound = elim sound [ ]

-- The data held, the cache and the tasks of a system are of its history.
abbrev pub HasHistory : System → Type 0
HasHistory m =
    Holds m.ever m.service.bootstrap.content
    × Cached m.ever m.service.tld_servers
    × All (Sound m.ever) m.tasks

advance_at-Stepped :
    (ever : List RdapBootstrap) (n : ℕ) (i : Input) (s : Service RdapBootstrap) (ts : List Task)
    → Holds ever s.bootstrap.content
    → Cached ever s.tld_servers
    → All (Sound ever) ts
    → let (s', ts') = advance_at n i s ts in
      let ever' = held s'.bootstrap.content ever in
      Cached ever' s'.tld_servers × All (Sound ever') ts'
unfolding advance_at
advance_at-Stepped ever n i s [] holds cached sound =
    (Cached-held ever s.bootstrap.content s.tld_servers cached, tt)
advance_at-Stepped ever zero i s (t ∷ ts) holds cached (sound, rest) =
    let s' = (advance i s t).0 in
    let (cached', sound') = advance-Stepped ever s cached i t holds sound in
    (cached', (sound', All-Sound-held ever s'.bootstrap.content ts rest))
advance_at-Stepped ever (suc n) i s (t ∷ ts) holds cached (sound, rest) =
    let s' = (advance_at n i s ts).0 in
    let (cached', rest') = advance_at-Stepped ever n i s ts holds cached rest in
    (cached', (Sound-held ever s'.bootstrap.content t sound, rest'))

All-drop_at : (P : Task → Type 0) (n : ℕ) (ts : List Task) → All P ts → All P (drop_at n ts)
unfolding drop_at
All-drop_at P n [] h = tt
All-drop_at P zero (t ∷ ts) (p, h) = h
All-drop_at P (suc n) (t ∷ ts) (p, h) = (p, All-drop_at P n ts h)

move-HasHistory : (m : System) (v : Move) → HasHistory m → HasHistory (move m v)
unfolding move
move-HasHistory m (starts tld) (holds, cached, sound) =
    (holds, cached, All-append (Sound m.ever) m.tasks (looking tld ∷ []) sound (tt, tt))
move-HasHistory m (steps n i) (holds, cached, sound) =
    let s' = (advance_at n i m.service m.tasks).0 in
    let (cached', sound') = advance_at-Stepped m.ever n i m.service m.tasks holds cached sound in
    (Holds-held m.ever s'.bootstrap.content, cached', sound')
move-HasHistory m (cancels n) (holds, cached, sound) =
    (holds, cached, All-drop_at (Sound m.ever) n m.tasks sound)

run-HasHistory : (vs : List Move) (m : System) → HasHistory m → HasHistory (run vs m)
unfolding run
run-HasHistory [] m h = h
run-HasHistory (v ∷ vs) m h = run-HasHistory vs (move m v) (move-HasHistory m v h)

-- Over any interleaving of lookups on a new service, whatever the clock says and the network
-- answers: no lookup panics, and every server in the cache, and every one that is answered, is what
-- bootstrap data held at some moment named for that top-level domain.
pub run-Sound :
    (vs : List Move)
    → let m = run vs new_system in Cached m.ever m.service.tld_servers × All (Sound m.ever) m.tasks
run-Sound vs =
    let (holds, cached, sound) = run-HasHistory vs new_system (tt, tt, tt) in (cached, sound)
