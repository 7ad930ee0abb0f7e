-- ===== src/Rdap/Bootstrap/Serving.antt =====
-- src/rdap.rs: what an access to the bootstrap data returns.
use rust_whois.Prelude.{◌≡◌, Option, none, some, arith}
use rust_whois.Error.{Result, ok, err}
use rust_whois.Rdap.Bootstrap.{
  Readings, Service, Outcome, returns, panics, decide, get_or_fetch_bootstrap,
}

-- The answer of an access, from the data before and after: never a panic; data is what is then
-- held; and an error only where nothing was held before or is now.
abbrev pub Serves : {D : Type 0} → (before after : Option D) → Outcome (Result D) → Type 0
Serves before after panics = ⊥
Serves before after (returns (ok d)) = after ≡ some d
Serves before after (returns (err e)) = (before ≡ none) × (after ≡ none)

module _ {D W : Type 0} (fetch_bootstrap_data : W → Result D × W) where
  -- An access never panics on missing data. It returns the data that the service then holds, or
  -- else an error, the latter only where the service held none before and holds none after.
  pub get_or_fetch_bootstrap-Serves :
      (at : Readings) (s : Service D) (w : W)
      → let ((answer, after), w') = get_or_fetch_bootstrap fetch_bootstrap_data at s w in
        Serves s.bootstrap.content after.bootstrap.content answer
  unfolding get_or_fetch_bootstrap decide
  get_or_fetch_bootstrap-Serves at s w = ground arith
