-- ===== src/Rdap/Bootstrap.antt =====
-- src/rdap.rs: `BootstrapState` and `get_or_fetch_bootstrap`. An `Instant` is a number of
-- nanoseconds, and every reading of the clock is an input of its own. The mutex makes each access
-- one step, so a sequence of accesses is a list.
pub mod Serving
pub mod Spacing
pub mod Recovery
use rust_whois.Prelude.{
  ℕ, ◌-◌, ◌*◌, Bool, true, false, ◌&&◌, List, [], ◌∷◌, Option, none, some, if◌then◌else◌, ltb,
  is_some,
}
use rust_whois.Text.{Str, codes}
use rust_whois.Error.{WhoisError, internal, Result, ok, err}

-- `Duration::from_secs`
abbrev pub from_secs : ℕ → ℕ
from_secs n = n * 1000000000

abbrev pub bootstrap_refresh_secs : ℕ
bootstrap_refresh_secs = 24 * 60 * 60

abbrev pub bootstrap_retry_secs : ℕ
bootstrap_retry_secs = 300

pub data BootstrapAction : Type 0 where
  use_cached fetch serve_stale unavailable : BootstrapAction

-- What a call gives: a value, or the panic of `expect`.
pub data Outcome (A : Type 0) : Type 0 where
  returns : A → Outcome A
  panics : Outcome A

-- `t.is_some_and(|t| t.elapsed() < limit)`, with the clock at `now`
abbrev pub elapsed_less : Option ℕ → (now limit : ℕ) → Bool
elapsed_less none now limit = false
elapsed_less (some t) now limit = ltb (now - t) limit

-- The clock at each place that reads it: `fresh` and `attempted_recently` in `decide`, and the two
-- assignments in `get_or_fetch_bootstrap`.
pub record Readings : Type 0 where
  pub fresh_at : ℕ
  pub recent_at : ℕ
  pub attempt_at : ℕ
  pub arrival_at : ℕ

pub record BootstrapState (D : Type 0) : Type 0 where
  pub content : Option D
  pub fetched_at : Option ℕ
  pub last_attempt : Option ℕ

-- The fields of `RdapService` that the access writes.
pub record Service (D : Type 0) : Type 0 where
  pub bootstrap : BootstrapState D
  pub tld_servers : List (Str × Str)

module _ {D : Type 0} where
  unfoldable pub decide :
      BootstrapState D → (refresh_after retry_after fresh_at recent_at : ℕ) → BootstrapAction
  decide s refresh_after retry_after fresh_at recent_at =
      let fresh = elapsed_less s.fetched_at fresh_at refresh_after in
      let attempted_recently = elapsed_less s.last_attempt recent_at retry_after in
      if is_some s.content && fresh
      then use_cached
      else if attempted_recently
      then if is_some s.content then serve_stale else unavailable
      else fetch

  -- `Ok(data.expect(..).clone())`
  abbrev pub expect_content : Option D → Outcome (Result D)
  expect_content none = panics
  expect_content (some d) = returns (ok d)

  -- What a failed fetch gives.
  abbrev pub stale_or : WhoisError → Option D → Outcome (Result D)
  stale_or e none = returns (err e)
  stale_or e (some stale) = returns (ok stale)

  -- The arms of `Fetch`, after `fetch_bootstrap_data` has answered.
  abbrev pub fetched : Readings → Service D → Result D → Outcome (Result D) × Service D
  fetched at s (ok d) = (
    returns (ok d),
    record {
      bootstrap = record {
        content = some d;
        fetched_at = some at.arrival_at;
        last_attempt = some at.attempt_at;
      };
      tld_servers = if is_some s.bootstrap.content then [] else s.tld_servers;
    },
  )
  fetched at s (err e) =
      let after = record s {
        bootstrap = record s.bootstrap { last_attempt = some at.attempt_at };
      } in
      (stale_or e s.bootstrap.content, after)

  module _ {W : Type 0} (fetch_bootstrap_data : W → Result D × W) where
    -- The arms of the `match`.
    abbrev pub acted :
        Readings → Service D → W → BootstrapAction → (Outcome (Result D) × Service D) × W
    acted at s w use_cached = ((expect_content s.bootstrap.content, s), w)
    acted at s w serve_stale = ((expect_content s.bootstrap.content, s), w)
    acted at s w unavailable =
        ((returns (err (internal (codes "RDAP bootstrap data unavailable, retry pending"))), s), w)
    acted at s w fetch = let (answer, w') = fetch_bootstrap_data w in (fetched at s answer, w')

    unfoldable pub get_or_fetch_bootstrap :
        Readings → Service D → W → (Outcome (Result D) × Service D) × W
    unfolding decide
    get_or_fetch_bootstrap at s w = acted at s w (
        decide s.bootstrap (from_secs bootstrap_refresh_secs) (from_secs bootstrap_retry_secs)
          at.fresh_at at.recent_at)

  -- One access after another, on a network that answers each in its own way.
  module _ {W : Type 0} (network : Readings → W → Result D × W) where
    unfoldable pub accesses : List Readings → Service D → W → Service D × W
    unfolding get_or_fetch_bootstrap
    accesses [] s w = (s, w)
    accesses (at ∷ ats) s w =
        let ((answer, s'), w') = get_or_fetch_bootstrap (network at) at s w in accesses ats s' w'

  -- `RdapService::new`, with the default state
  abbrev pub initial : Service D
  initial = record {
    bootstrap = record { content = none; fetched_at = none; last_attempt = none };
    tld_servers = [];
  }
