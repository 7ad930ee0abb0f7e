-- ===== src/Cache/Degrade.antt =====
-- src/cache.rs: `get_or_fetch` with a backend whose reads fail.
use rust_whois.Prelude.{◌≡◌, refl, ap, Bool, Option, none, some, inl, arith}
use rust_whois.Text.{Str}
use rust_whois.Error.{Result, ok, err}
use rust_whois.Data.{WhoisResponse}
use rust_whois.Cache.{
  CacheBackend, CacheService, Tiers, backend_get, or_miss, init, unless_hit, unless_held, finish,
  get_or_fetch, insert,
}

abbrev pub Fails : {B : Type 0} → CacheBackend B → Type 0
Fails {B} backend = (key : Str) (b : B) → (e : Str) × ((backend.load key b).0 ≡ inl e)

abbrev pub SameView :
    {L B W : Type 0}
    → Result WhoisResponse × Tiers L B W
    → Result WhoisResponse × Tiers L B W
    → Type 0
SameView (a, s) (b, t) = (a ≡ b) × (s.local ≡ t.local) × (s.net ≡ t.net)

module _ {L B : Type 0} (c : CacheService L B) (backend : CacheBackend B)
    (fails : Fails backend) where
  abbrev with_backend : CacheService L B
  with_backend = record c { backend = some backend }

  abbrev without : CacheService L B
  without = record c { backend = none }

  backend_get-none : (key : Str) (b : B) → (backend_get with_backend key b).0 ≡ none
  unfolding backend_get
  backend_get-none key b = let (e, same) = fails key b in ap or_miss same

  module _ {W : Type 0} where
    SameNet : Result WhoisResponse × B × W → Result WhoisResponse × B × W → Type 0
    SameNet (a, b, w) (a', b', w') = (a ≡ a') × (w ≡ w')

    unless_hit-same :
        (key : Str) (fetch_fn : W → Result WhoisResponse × W) (hit : Option WhoisResponse)
        (b b' : B) (w : W)
        → hit ≡ none
        → SameNet
            (unless_hit with_backend key fetch_fn hit b w)
            (unless_hit without key fetch_fn none b' w)
    unfolding SameNet
    unless_hit-same key fetch_fn hit b b' w miss = ground arith

    init-same :
        (key : Str) (fetch_fn : W → Result WhoisResponse × W) (b : B) (w : W)
        → SameNet (init with_backend key fetch_fn b w) (init without key fetch_fn b w)
    unfolding init backend_get
    init-same key fetch_fn b w = unless_hit-same key fetch_fn _ _ b w (backend_get-none key b)

    finish-same :
        (key : Str) (others : Bool) (l : L) (x y : Result WhoisResponse × B × W)
        → SameNet x y
        → SameView
            (finish with_backend key others l x.0 x.1 x.2)
            (finish without key others l y.0 y.1 y.2)
    unfolding SameNet insert
    finish-same key others l (ok r, b, w) (ok r', b', w') (same, net) = ground arith
    finish-same key others l (ok r, b, w) (err e, b', w') (same, net) = cc
    finish-same key others l (err e, b, w) (ok r, b', w') (same, net) = cc
    finish-same key others l (err e, b, w) (err e', b', w') (same, net) = ground arith

    unless_held-same :
        (key : Str) (fetch_fn : W → Result WhoisResponse × W) (others : Bool)
        (hit : Option WhoisResponse) (s : Tiers L B W)
        → SameView
            (unless_held with_backend key fetch_fn others hit s)
            (unless_held without key fetch_fn others hit s)
    unless_held-same key fetch_fn others (some r) s = (refl, refl, refl)
    unless_held-same key fetch_fn others none s =
        finish-same key others s.local _ _ (init-same key fetch_fn s.shared s.net)

    -- With a backend whose reads all fail, a lookup gives the same answer, leaves the same
    -- in-process tier and makes the same fetches as with no backend at all.
    pub get_or_fetch-Fails :
        (domain : Str) (fetch_fn : W → Result WhoisResponse × W) (others : Bool) (s : Tiers L B W)
        → SameView
            (get_or_fetch (record c { backend = some backend }) domain fetch_fn others s)
            (get_or_fetch (record c { backend = none }) domain fetch_fn others s)
    unfolding get_or_fetch
    get_or_fetch-Fails domain fetch_fn others s = unless_held-same _ fetch_fn others _ _
