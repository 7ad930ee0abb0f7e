-- ===== src/Rdap/Bootstrap/Recovery.antt =====
-- src/rdap.rs: `get_or_fetch_bootstrap` once a fetch is due, and the accesses that follow it.
use rust_whois.Prelude.{
  ℕ, ◌≤◌, ◌<◌, ◌+◌, ◌≡◌, refl, false, Option, none, some, List, [], ◌∷◌, All, arith,
}
use rust_whois.Error.{Result, ok}
use rust_whois.Rdap.Bootstrap.{
  Readings, Service, BootstrapState, returns, decide, get_or_fetch_bootstrap, accesses,
  elapsed_less, from_secs, bootstrap_retry_secs, bootstrap_refresh_secs, fetch, use_cached,
}
use rust_whois.Rdap.Bootstrap.Spacing.{Log, logged}

-- The limit has passed since a moment, if there was one.
abbrev pub Passed : (since : Option ℕ) → (limit now : ℕ) → Type 0
Passed none limit now = Unit
Passed (some t) limit now = t + limit ≤ now

-- The data held is a day old or there is none, and the last attempt is 300 seconds ago.
abbrev pub IsDue : {D : Type 0} → Readings → BootstrapState D → Type 0
IsDue at s =
    Passed s.fetched_at (from_secs bootstrap_refresh_secs) at.fresh_at
    × Passed s.last_attempt (from_secs bootstrap_retry_secs) at.recent_at

-- An access within a day of a moment.
abbrev pub WithinDay : ℕ → Readings → Type 0
WithinDay arrival at = at.fresh_at < arrival + from_secs bootstrap_refresh_secs

elapsed_less-Passed :
    (since : Option ℕ) (limit now : ℕ)
    → Passed since limit now
    → elapsed_less since now limit ≡ false
elapsed_less-Passed none limit now passed = refl
elapsed_less-Passed (some t) limit now passed = ground arith

module _ {D : Type 0} where
  pub decide-due :
      (s : BootstrapState D) (at : Readings)
      → IsDue at s
      → decide s
          (from_secs bootstrap_refresh_secs)
          (from_secs bootstrap_retry_secs)
          at.fresh_at
          at.recent_at
        ≡ fetch
  unfolding decide
  decide-due s at (old, waited) =
      let not_fresh = elapsed_less-Passed s.fetched_at _ at.fresh_at old in
      let not_recent = elapsed_less-Passed s.last_attempt _ at.recent_at waited in
      rw (not_fresh, not_recent) (ground arith)

  pub decide-fresh :
      (s : BootstrapState D) (d : D) (arrival : ℕ) (at : Readings)
      → s.content ≡ some d
      → s.fetched_at ≡ some arrival
      → WithinDay arrival at
      → decide s
          (from_secs bootstrap_refresh_secs)
          (from_secs bootstrap_retry_secs)
          at.fresh_at
          at.recent_at
        ≡ use_cached
  unfolding decide
  decide-fresh s d arrival at held since within = rw (held, since) (ground arith)

  module _ (reply : Readings → Log → Result D) where
    held-accesses :
        (ats : List Readings) (s : Service D) (d : D) (arrival : ℕ) (log : Log)
        → s.bootstrap.content ≡ some d
        → s.bootstrap.fetched_at ≡ some arrival
        → All (WithinDay arrival) ats
        → accesses (logged reply) ats s log ≡ (s, log)
    unfolding accesses get_or_fetch_bootstrap
    held-accesses [] s d arrival log held since within = refl
    held-accesses (at ∷ ats) s d arrival log held since (now, later) =
        rw (decide-fresh s.bootstrap d arrival at held since now)
          (held-accesses ats s d arrival log held since later)

    -- Where no data is held or it is a day old, and the last attempt is 300 seconds ago or there was
    -- none, an access fetches; data that the fetch gives is its answer, and over all accesses in the
    -- day from its arrival on there is no further fetch and the service stays as it is.
    pub get_or_fetch_bootstrap-due :
        (at : Readings) (ats : List Readings) (s : Service D) (d : D) (log : Log)
        → IsDue at s.bootstrap
        → reply at log ≡ ok d
        → All (WithinDay at.arrival_at) ats
        → let ((answer, s'), log') = get_or_fetch_bootstrap (logged reply at) at s log in
          (answer ≡ returns (ok d))
          × (log' ≡ at.attempt_at ∷ log)
          × (accesses (logged reply) ats s' log' ≡ (s', log'))
    unfolding get_or_fetch_bootstrap
    get_or_fetch_bootstrap-due at ats s d log due replied within =
        rw (decide-due s.bootstrap at due, replied)
          (refl, refl, held-accesses ats _ d at.arrival_at _ refl refl within)
