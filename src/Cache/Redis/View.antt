-- ===== src/Cache/Redis/View.antt =====
-- src/redis_cache.rs: the backend as a map from queries to responses.
use rust_whois.Prelude.{
  ℕ, ◌≡◌, ◌≢◌, refl, ◌∙◌, ap, Bool, true, false, [], ◌∷◌, ◌++◌, Option, none, some, inr,
  if◌then◌else◌, arith,
}
use rust_whois.Text.{Str, str_eq}
use rust_whois.Data.{WhoisResponse}
use rust_whois.Cache.Redis.{
  Redis, Json, RedisCache, Held, connection, prefixed_key, parsed, load, at_least_one, store,
}

str_eq-++ : (p s t : Str) → str_eq (p ++ s) (p ++ t) ≡ str_eq s t
unfolding str_eq
str_eq-++ [] s t = refl
str_eq-++ (c ∷ p) s t = let ih = str_eq-++ p s t in ground arith

-- What Redis documents of a server that can be reached, while nothing expires: `GET` reads the
-- value of a key, and `SETEX` with a time to live of a second or more sets it.
pub record Reachable {W : Type 0} (redis : Redis W) (view : W → Str → Option Str) : Type 0 where
  pub get_connection_manager-view :
      (client : redis.Client) (w : W)
      → (c : redis.Connection) × (w' : W) × (redis.get_connection_manager client w ≡ (inr c, w'))
        × (view w' ≡ view w)
  pub get-view :
      (c : redis.Connection) (key : Str) (w : W)
      → (w' : W) × (redis.get c key w ≡ (inr (view w key), w')) × (view w' ≡ view w)
  pub set_ex-view :
      (c : redis.Connection) (key text : Str) (seconds : ℕ) (w : W)
      → seconds ≢ 0
      → (w' : W) × (redis.set_ex c key text seconds w ≡ (inr tt, w'))
        × (view w' ≡ (λ other. if str_eq key other then some text else view w other))

at_least_one-≢ : (ttl : ℕ) → at_least_one ttl ≢ 0
at_least_one-≢ ttl = ground arith

module _ {W : Type 0} (redis : Redis W) (view : W → Str → Option Str)
    (reachable : Reachable redis view) (json : Json) (cache : RedisCache redis) where
  open reachable use {get_connection_manager-view, get-view, set_ex-view}

  -- The world that a state holds.
  abbrev world : Held redis → W
  world (cell, w) = w

  connection-view :
      (held : Held redis)
      → (c : redis.Connection) × (after : Held redis) × (connection redis cache held
          ≡ (inr c, after))
        × (view (world after) ≡ view (world held))
  unfolding connection
  connection-view (some c, w) = (c, (some c, w), refl, refl)
  connection-view (none, w) =
      let (c, w', e, same) = get_connection_manager-view cache.client w in
      (c, (some c, w'), rw e refl, same)

  load-view :
      (key : Str) (held : Held redis)
      → (load redis json cache key held).0
        ≡ parsed redis json (inr (view (world held) (cache.key_prefix ++ key)))
  unfolding load prefixed_key
  load-view key held =
      let (c, (cell, w), e, same) = connection-view held in
      let (w', read, kept) = get-view c (cache.key_prefix ++ key) w in
      rw (e, read) (ap (λ v. parsed redis json (inr (v (cache.key_prefix ++ key)))) same)

  store-view :
      (key text : Str) (ttl : ℕ) (response : WhoisResponse) (held : Held redis)
      → json.to_string response ≡ inr text
      → view (world (store redis json cache key response ttl held).1) ≡ (λ other.
        if str_eq (cache.key_prefix ++ key) other then some text else view (world held) other)
  unfolding store prefixed_key
  store-view key text ttl response held printed =
      let (c, (cell, w), e, same) = connection-view held in
      let (w', written, changed) =
        set_ex-view c (cache.key_prefix ++ key) text (at_least_one ttl) w (at_least_one-≢ ttl) in
      rw (printed, e, written)
        (changed
          ∙ ap (λ v. λ other. if str_eq (cache.key_prefix ++ key) other then some text else v other)
              same)

  -- Against a Redis server that can be reached, while nothing expires, and for a response that its
  -- JSON text is read back to: what a set leaves under a query is the response, whatever the time to
  -- live, and a get of any other query gives what it gave before.
  pub load-store :
      (key other text : Str) (ttl : ℕ) (response : WhoisResponse) (held : Held redis)
      → json.to_string response ≡ inr text
      → json.from_str text ≡ inr response
      → (load redis json cache other (store redis json cache key response ttl held).1).0
        ≡ (if str_eq key other then inr (some response) else (load redis json cache other held).0)
  load-store key other text ttl response held printed read_back =
      let stored = (store redis json cache key response ttl held).1 in
      let after =
        ap (λ v. v (cache.key_prefix ++ other)) (store-view key text ttl response held printed) in
      rw (load-view other stored, after, load-view other held, str_eq-++ cache.key_prefix key other)
        (by_key (str_eq key other))
    where
      by_key :
          (same : Bool)
          → parsed redis json
              (inr (if same then some text else view (world held) (cache.key_prefix ++ other)))
            ≡ (if same
                then inr (some response)
                else parsed redis json (inr (view (world held) (cache.key_prefix ++ other))))
      by_key true = rw read_back refl
      by_key false = refl
