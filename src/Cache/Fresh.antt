-- ===== src/Cache/Fresh.antt =====
-- src/cache.rs: the `cached` flag of what `get_or_fetch` returns.
use rust_whois.Prelude.{◌≡◌, refl, Bool, false, Option, none, some, if◌then◌else◌}
use rust_whois.Text.{Str}
use rust_whois.Error.{WhoisError, Result, ok, err}
use rust_whois.Data.{WhoisResponse}
use rust_whois.Cache.{
  CacheService, Tiers, init, unless_hit, unless_held, keep, finish, get_or_fetch, mark_cached,
}

-- An answer marked as cached comes with no fetch; one not marked is the fetch's own, made once; an
-- error comes from one fetch, too.
abbrev pub Honest :
    {L B W : Type 0}
    → (W → Result WhoisResponse × W)
    → W
    → Result WhoisResponse × Tiers L B W
    → Type 0
Honest fetch_fn w (ok r, s) =
    if r.cached
    then s.net ≡ w
    else ((fetched : WhoisResponse) × ((fetch_fn w).0 ≡ ok fetched)
        × (r ≡ mark_cached fetched false)
        × (s.net ≡ (fetch_fn w).1))
Honest fetch_fn w (err e, s) =
    ((reason : WhoisError) × ((fetch_fn w).0 ≡ err reason)) × (s.net ≡ (fetch_fn w).1)

module _ {L B W : Type 0} (c : CacheService L B) where
  finish-Honest :
      (key : Str) (others : Bool) (l : L) (fetch_fn : W → Result WhoisResponse × W) (b : B) (w : W)
      (answer : Result WhoisResponse)
      → (fetch_fn w).0 ≡ answer
      → let (answer', b', w') = keep c key answer b (fetch_fn w).1 in
        Honest fetch_fn w (finish c key others l answer' b' w')
  finish-Honest key others l fetch_fn b w (ok r) e = (r, e, refl, refl)
  finish-Honest key others l fetch_fn b w (err reason) e = ((reason, e), refl)

  init-Honest :
      (key : Str) (others : Bool) (l : L) (fetch_fn : W → Result WhoisResponse × W)
      (hit : Option WhoisResponse) (b : B) (w : W)
      → let (answer, b', w') = unless_hit c key fetch_fn hit b w in
        Honest fetch_fn w (finish c key others l answer b' w')
  init-Honest key others l fetch_fn (some r) b w = refl
  init-Honest key others l fetch_fn none b w =
      finish-Honest key others l fetch_fn b w (fetch_fn w).0 refl

  unless_held-Honest :
      (key : Str) (fetch_fn : W → Result WhoisResponse × W) (others : Bool)
      (hit : Option WhoisResponse) (s : Tiers L B W)
      → Honest fetch_fn s.net (unless_held c key fetch_fn others hit s)
  unfolding init
  unless_held-Honest key fetch_fn others (some r) s = refl
  unless_held-Honest key fetch_fn others none s = init-Honest key others s.local fetch_fn _ _ s.net

  -- An answer marked as cached comes with no fetch at all; one that is not is the response of
  -- exactly one fetch, and so does an error come of exactly one fetch that failed.
  pub get_or_fetch-Honest :
      (domain : Str) (fetch_fn : W → Result WhoisResponse × W) (others : Bool) (s : Tiers L B W)
      → Honest fetch_fn s.net (get_or_fetch c domain fetch_fn others s)
  unfolding get_or_fetch
  get_or_fetch-Honest domain fetch_fn others s = unless_held-Honest _ fetch_fn others _ _
