-- ===== src/Cache/Policy.antt =====
-- src/cache.rs: what the operations of the cache write to the shared tier.
use rust_whois.Prelude.{ℕ, ◌≡◌, ◌≢◌, refl, Bool, List, [], ◌∷◌, Option, none, some, ◌⊎◌, All, arith}
use rust_whois.Text.{Str}
use rust_whois.Error.{Result, ok, err}
use rust_whois.Data.{found, not_found, WhoisResponse}
use rust_whois.Cache.{
  Cache, CacheBackend, CacheService, Tiers, backend_get, backend_set, backend_ttl, init, keep,
  unless_hit, unless_held, finish, get, set, get_or_fetch, normalize_domain,
}

-- The writes so far, the last one first: the response and its time to live.
abbrev pub Writes : Type 0
Writes = List (WhoisResponse × ℕ)

-- A backend whose answers may depend on everything written, with each write on the log.
abbrev pub logged :
    (Writes → Str → Str ⊎ Option WhoisResponse)
    → (Writes → Str → Str ⊎ Unit {0})
    → CacheBackend Writes
logged load store = record {
  load = λ key log. (load log key, log);
  store = λ key response ttl log. (store log key, (response, ttl) ∷ log);
}

pub data Op (W : Type 0) : Type 0 where
  getting : Str → Op W
  setting : Str → WhoisResponse → Op W
  fetching : Str → (W → Result WhoisResponse × W) → (others : Bool) → Op W

-- Never a throttled response, never for no time, and always for the time its status earns.
abbrev pub Storable : (positive_ttl negative_ttl : ℕ) → WhoisResponse × ℕ → Type 0
Storable positive_ttl negative_ttl (response, ttl) =
    (ttl ≢ 0)
    × (((response.lookup_status ≡ found) × (ttl ≡ positive_ttl))
        ⊎ ((response.lookup_status ≡ not_found) × (ttl ≡ negative_ttl)))

module _ {L W : Type 0} where
  unfoldable pub perform : CacheService L Writes → Op W → Tiers L Writes W → Tiers L Writes W
  unfolding get set get_or_fetch
  perform c (getting domain) s = (get c domain s).1
  perform c (setting domain response) s = set c domain response s
  perform c (fetching domain fetch_fn others) s = (get_or_fetch c domain fetch_fn others s).1

  unfoldable pub perform_all :
      CacheService L Writes → List (Op W) → Tiers L Writes W → Tiers L Writes W
  unfolding perform
  perform_all c [] s = s
  perform_all c (op ∷ ops) s = perform_all c ops (perform c op s)

module _ {L : Type 0} (cache : Cache L) (load : Writes → Str → Str ⊎ Option WhoisResponse)
    (store : Writes → Str → Str ⊎ Unit {0}) (positive_ttl negative_ttl : ℕ) where
  abbrev service : CacheService L Writes
  service = record {
    cache = cache;
    backend = some (logged load store);
    positive_ttl = positive_ttl;
    negative_ttl = negative_ttl;
  }

  abbrev Stored : Writes → Type 0
  Stored log = All (Storable positive_ttl negative_ttl) log

  backend_ttl-Storable :
      (r : WhoisResponse) (ttl : ℕ)
      → backend_ttl service r ≡ some ttl
      → Storable positive_ttl negative_ttl (r, ttl)
  unfolding backend_ttl
  backend_ttl-Storable r ttl e = ground arith

  backend_set-Stored :
      (key : Str) (r : WhoisResponse) (log : Writes)
      → Stored log
      → Stored (backend_set service key r log)
  unfolding backend_set
  backend_set-Stored key r log stored = go (backend_ttl service r) refl
    where
      go :
          (o : Option ℕ)
          → backend_ttl service r ≡ o
          → Stored (elim o [ none ↦ log | some ttl ↦ (r, ttl) ∷ log ])
      go none e = stored
      go (some ttl) e = (backend_ttl-Storable r ttl e, stored)

  module _ {W : Type 0} where
    keep-Stored :
        (key : Str) (answer : Result WhoisResponse) (log : Writes) (w : W)
        → Stored log
        → Stored (keep service key answer log w).1
    keep-Stored key (ok r) log w stored = backend_set-Stored key _ log stored
    keep-Stored key (err e) log w stored = stored

    unless_hit-Stored :
        (key : Str) (fetch_fn : W → Result WhoisResponse × W) (hit : Option WhoisResponse)
        (log : Writes) (w : W)
        → Stored log
        → Stored (unless_hit service key fetch_fn hit log w).1
    unless_hit-Stored key fetch_fn (some r) log w stored = stored
    unless_hit-Stored key fetch_fn none log w stored = keep-Stored key _ log _ stored

    finish-Stored :
        (key : Str) (others : Bool) (l : L) (answer : Result WhoisResponse) (log : Writes) (w : W)
        → Stored log
        → Stored (finish service key others l answer log w).1.shared
    finish-Stored key others l (ok r) log w stored = stored
    finish-Stored key others l (err e) log w stored = stored

    unless_held-Stored :
        (key : Str) (fetch_fn : W → Result WhoisResponse × W) (others : Bool)
        (hit : Option WhoisResponse) (s : Tiers L Writes W)
        → Stored s.shared
        → Stored (unless_held service key fetch_fn others hit s).1.shared
    unfolding init backend_get
    unless_held-Stored key fetch_fn others (some r) s stored = stored
    unless_held-Stored key fetch_fn others none s stored =
        let (answer, log, w) = init service key fetch_fn s.shared s.net in
        finish-Stored key others s.local answer log w (
          unless_hit-Stored key fetch_fn (backend_get service key s.shared).0 s.shared s.net stored)

    perform-Stored :
        (op : Op W) (s : Tiers L Writes W) → Stored s.shared → Stored (perform service op s).shared
    unfolding perform get set get_or_fetch backend_get
    perform-Stored (getting domain) s stored = ground arith
    perform-Stored (setting domain r) s stored =
        backend_set-Stored (normalize_domain domain) r s.shared stored
    perform-Stored (fetching domain fetch_fn others) s stored =
        let key = normalize_domain domain in
        let (hit, l) = cache.lookup key s.local in
        unless_held-Stored key fetch_fn others hit (record s { local = l }) stored

    -- Whatever is done with the cache, in any order, and whatever the backend and the network
    -- answer: what is written to the backend is never a throttled response and never has a zero
    -- time to live, and a found or a not-found response has the time that its status earns.
    pub perform_all-Stored :
        (ops : List (Op W)) (s : Tiers L Writes W)
        → All (Storable positive_ttl negative_ttl) s.shared
        → All (Storable positive_ttl negative_ttl) (perform_all service ops s).shared
    unfolding perform_all
    perform_all-Stored [] s stored = stored
    perform_all-Stored (op ∷ ops) s stored =
        perform_all-Stored ops (perform service op s) (perform-Stored op s stored)
