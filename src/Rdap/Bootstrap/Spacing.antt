-- ===== src/Rdap/Bootstrap/Spacing.antt =====
-- src/rdap.rs: when the bootstrap data is fetched.
use rust_whois.Prelude.{
  ℕ, ◌≤◌, ◌+◌, ◌≡◌, refl, false, Option, none, some, List, [], ◌∷◌, All, arith,
}
use rust_whois.Error.{Result, ok, err}
use rust_whois.Rdap.Bootstrap.{
  Readings, Service, BootstrapState, Outcome, decide, get_or_fetch_bootstrap, accesses,
  elapsed_less, from_secs, bootstrap_retry_secs, bootstrap_refresh_secs, BootstrapAction,
  use_cached, fetch, serve_stale, unavailable, fetched, acted, initial,
}

-- The starts of the fetches so far, the last one first.
abbrev pub Log : Type 0
Log = List ℕ

-- Each fetch starts at least the retry time after the one before it.
abbrev pub Spaced : Log → Type 0
Spaced [] = Unit
Spaced (t ∷ []) = Unit
Spaced (t ∷ u ∷ log) = (u + from_secs bootstrap_retry_secs ≤ t) × Spaced (u ∷ log)

-- `last_attempt` is the start of the last fetch.
abbrev Recorded : Option ℕ → Log → Type 0
Recorded none [] = Unit
Recorded none (u ∷ log) = ⊥
Recorded (some t) [] = ⊥
Recorded (some t) (u ∷ log) = t ≡ u

-- The clock does not run backwards between the decision and the start of a fetch.
abbrev pub InOrder : Readings → Type 0
InOrder at = at.recent_at ≤ at.attempt_at

Spaced-∷ :
    (last : Option ℕ) (at : Readings) (log : Log)
    → Recorded last log
    → elapsed_less last at.recent_at (from_secs bootstrap_retry_secs) ≡ false
    → InOrder at
    → Spaced log
    → Spaced (at.attempt_at ∷ log)
Spaced-∷ none at [] recorded waited in_order spaced = tt
Spaced-∷ none at (u ∷ log) recorded waited in_order spaced = elim recorded [ ]
Spaced-∷ (some t) at [] recorded waited in_order spaced = elim recorded [ ]
Spaced-∷ (some t) at (u ∷ log) recorded waited in_order spaced = (ground arith, spaced)

module _ {D : Type 0} (reply : Readings → Log → Result D) where
  -- A network that puts the start of each fetch on the log.
  abbrev pub logged : Readings → Log → Result D × Log
  logged at log = (reply at log, at.attempt_at ∷ log)

  abbrev Kept : (Outcome (Result D) × Service D) × Log → Type 0
  Kept ((answer, s), log) = Recorded s.bootstrap.last_attempt log × Spaced log

  decide-fetch :
      (s : BootstrapState D) (refresh retry fresh_at recent_at : ℕ)
      → decide s refresh retry fresh_at recent_at ≡ fetch
      → elapsed_less s.last_attempt recent_at retry ≡ false
  unfolding decide
  decide-fetch s refresh retry fresh_at recent_at e = ground arith

  fetched-Kept :
      (at : Readings) (s : Service D) (log : Log) (answer : Result D)
      → Spaced (at.attempt_at ∷ log)
      → Kept (fetched at s answer, at.attempt_at ∷ log)
  fetched-Kept at s log (ok d) spaced = (refl, spaced)
  fetched-Kept at s log (err e) spaced = ground arith

  get_or_fetch_bootstrap-Kept :
      (at : Readings) (s : Service D) (log : Log)
      → Recorded s.bootstrap.last_attempt log
      → InOrder at
      → Spaced log
      → Kept (get_or_fetch_bootstrap (logged at) at s log)
  unfolding get_or_fetch_bootstrap
  get_or_fetch_bootstrap-Kept at s log recorded in_order spaced =
      go
        (decide s.bootstrap (from_secs bootstrap_refresh_secs) (from_secs bootstrap_retry_secs)
          at.fresh_at at.recent_at)
        refl
    where
      go :
          (a : BootstrapAction)
          → decide s.bootstrap
              (from_secs bootstrap_refresh_secs)
              (from_secs bootstrap_retry_secs)
              at.fresh_at
              at.recent_at
            ≡ a
          → Kept (acted (logged at) at s log a)
      go use_cached e = (recorded, spaced)
      go serve_stale e = (recorded, spaced)
      go unavailable e = (recorded, spaced)
      go fetch e = fetched-Kept at s log (reply at log) (
          Spaced-∷ s.bootstrap.last_attempt at log recorded (decide-fetch s.bootstrap _ _ _ _ e)
            in_order spaced)

  accesses-Kept :
      (ats : List Readings) (s : Service D) (log : Log)
      → Recorded s.bootstrap.last_attempt log
      → All InOrder ats
      → Spaced log
      → Spaced (accesses logged ats s log).1
  unfolding accesses
  accesses-Kept [] s log recorded in_order spaced = spaced
  accesses-Kept (at ∷ ats) s log recorded (now, later) spaced =
      let (recorded', spaced') = get_or_fetch_bootstrap-Kept at s log recorded now spaced in
      accesses-Kept ats _ _ recorded' later spaced'

-- Over any sequence of accesses to a new service, and whatever the network answers, two fetches
-- of the bootstrap data start at least 300 seconds apart, as long as the clock does not run
-- backwards within an access.
pub accesses-Spaced :
    {D : Type 0} (reply : Readings → Log → Result D) (ats : List Readings)
    → All InOrder ats
    → Spaced (accesses (logged reply) ats initial []).1
accesses-Spaced reply ats in_order = accesses-Kept reply ats initial [] tt in_order tt
