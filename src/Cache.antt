-- ===== src/Cache.antt =====
-- src/cache.rs: the two-tier cache. The in-process tier is the crate moka and the shared tier an
-- implementation of the trait `CacheBackend`, so each is a parameter with a state of its own; the
-- fetch on a miss is one too. The entry API of moka makes one `get_or_fetch` of a key a step: its
-- other callers wait and share the answer.
pub mod Degrade
pub mod Fresh
pub mod Policy
pub mod Redis
use rust_whois.Prelude.{
  ℕ, Bool, true, false, List, [], ◌∷◌, Option, none, some, ◌⊎◌, inl, inr, if◌then◌else◌, ◌==◌,
}
use rust_whois.Text.{Str, codes, strip_suffix}
use rust_whois.Error.{WhoisError, duplicate, Result, ok, err}
use rust_whois.Data.{LookupStatus, found, not_found, rate_limited, WhoisResponse}

-- moka's cache. `insert` takes the time to live that the cache's `Expiry` gives the entry.
pub record Cache (L : Type 0) : Type 0 where
  pub lookup : Str → L → Option WhoisResponse × L
  pub insert : Str → WhoisResponse → (ttl : ℕ) → L → L

-- `CacheBackend`. A `BackendError` is only ever printed: it is its text.
pub record CacheBackend (B : Type 0) : Type 0 where
  pub load : Str → B → (Str ⊎ Option WhoisResponse) × B
  pub store : Str → WhoisResponse → (ttl : ℕ) → B → (Str ⊎ Unit {0}) × B

-- Times to live in seconds.
pub record CacheService (L B : Type 0) : Type 0 where
  pub cache : Cache L
  pub backend : Option (CacheBackend B)
  pub positive_ttl : ℕ
  pub negative_ttl : ℕ

-- `normalize_domain`
unfoldable pub normalize_domain : Str → Str
normalize_domain domain = elim (strip_suffix domain (codes ".")) [
  | some stripped ↦ stripped
  | none ↦ domain
]

abbrev pub mark_cached : WhoisResponse → Bool → WhoisResponse
mark_cached r b = record r { cached = b }

-- What the tiers and the network hold.
pub record Tiers (L B W : Type 0) : Type 0 where
  pub local : L
  pub shared : B
  pub net : W

-- `Err` is logged and read as a miss.
abbrev pub or_miss : Str ⊎ Option WhoisResponse → Option WhoisResponse
or_miss (inl e) = none
or_miss (inr hit) = hit

module _ {L B : Type 0} (c : CacheService L B) where
  -- `StatusExpiry::expire_after_create`
  unfoldable pub expire_after_create : WhoisResponse → ℕ
  expire_after_create value = elim value.lookup_status [
    | found ↦ c.positive_ttl
    | not_found ↦ c.negative_ttl
    | rate_limited ↦ 0
  ]

  -- `(!ttl.is_zero()).then_some(ttl)`
  abbrev unless_zero : ℕ → Option ℕ
  unless_zero ttl = if ttl == 0 then none else some ttl

  unfoldable pub backend_ttl : WhoisResponse → Option ℕ
  backend_ttl response = elim response.lookup_status [
    | found ↦ unless_zero c.positive_ttl
    | not_found ↦ unless_zero c.negative_ttl
    | rate_limited ↦ none
  ]

  unfoldable pub backend_get : Str → B → Option WhoisResponse × B
  backend_get key b = elim c.backend [
    | none ↦ (none, b)
    | some backend ↦ let (answer, b') = backend.load key b in (or_miss answer, b')
  ]

  unfoldable pub backend_set : Str → WhoisResponse → B → B
  unfolding backend_ttl
  backend_set key response b = elim c.backend [
    | none ↦ b
    | some backend ↦ elim (backend_ttl response) [
      | none ↦ b
      | some ttl ↦ (backend.store key response ttl b).1
    ]
  ]

  -- `self.cache.insert`
  unfoldable pub insert : Str → WhoisResponse → L → L
  unfolding expire_after_create
  insert key response l = c.cache.insert key response (expire_after_create response) l

  module _ {W : Type 0} where
    unfoldable pub get : Str → Tiers L B W → Option WhoisResponse × Tiers L B W
    unfolding normalize_domain backend_get insert
    get domain s =
        let key = normalize_domain domain in
        let (hit, l) = c.cache.lookup key s.local in
        elim hit [
          | some response ↦ (some (mark_cached response true), record s { local = l })
          | none ↦
              let (stored, b) = backend_get key s.shared in
              elim stored [
                | some response ↦ (
                  some (mark_cached response true),
                  record s { local = insert key response l; shared = b },
                )
                | none ↦ (none, record s { local = l; shared = b })
              ]
        ]

    unfoldable pub set : Str → WhoisResponse → Tiers L B W → Tiers L B W
    unfolding normalize_domain insert backend_set
    set domain response s =
        let key = normalize_domain domain in
        record s { local = insert key response s.local; shared = backend_set key response s.shared }

    abbrev pub keep : Str → Result WhoisResponse → B → W → Result WhoisResponse × B × W
    keep key (err e) b w = (err e, b, w)
    keep key (ok response) b w =
        let fresh = mark_cached response false in (ok fresh, backend_set key fresh b, w)

    abbrev pub unless_hit :
        Str
        → (W → Result WhoisResponse × W)
        → Option WhoisResponse
        → B
        → W
        → Result WhoisResponse × B × W
    unless_hit key fetch_fn (some response) b w = (ok (mark_cached response true), b, w)
    unless_hit key fetch_fn none b w = let (answer, w') = fetch_fn w in keep key answer b w'

    -- `init`, run by moka on a miss: the answer, and the tiers behind the fetch.
    unfoldable pub init :
        Str → (W → Result WhoisResponse × W) → B → W → Result WhoisResponse × B × W
    unfolding backend_get backend_set
    init key fetch_fn b w = let (hit, b') = backend_get key b in unless_hit key fetch_fn hit b' w

    abbrev pub finish :
        Str
        → (others : Bool) → L
        → Result WhoisResponse
        → B
        → W
        → Result WhoisResponse × Tiers L B W
    finish key others l (ok response) b w =
        (ok response, record { local = insert key response l; shared = b; net = w })
    finish key others l (err e) b w =
        (err (if others then duplicate e else e), record { local = l; shared = b; net = w })

    abbrev pub unless_held :
        Str
        → (W → Result WhoisResponse × W)
        → Bool
        → Option WhoisResponse
        → Tiers L B W
        → Result WhoisResponse × Tiers L B W
    unless_held key fetch_fn others (some response) s = (ok (mark_cached response true), s)
    unless_held key fetch_fn others none s =
        let (answer, b, w) = init key fetch_fn s.shared s.net in
        finish key others s.local answer b w

    -- `others` tells whether another caller waits for the same key: then the error is shared, and
    -- each gets a copy of it.
    unfoldable pub get_or_fetch :
        Str
        → (W → Result WhoisResponse × W)
        → (others : Bool) → Tiers L B W
        → Result WhoisResponse × Tiers L B W
    unfolding normalize_domain init insert duplicate
    get_or_fetch domain fetch_fn others s =
        let key = normalize_domain domain in
        let (hit, l) = c.cache.lookup key s.local in
        unless_held key fetch_fn others hit (record s { local = l })
