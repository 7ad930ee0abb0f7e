-- ===== src/Cache/Redis.antt =====
-- src/redis_cache.rs. The crates redis and serde_json are parameters, an error of either its text.
pub mod View
use rust_whois.Prelude.{
  ℕ, Bool, true, false, List, [], ◌∷◌, ◌++◌, Option, none, some, ◌⊎◌, inl, inr, if◌then◌else◌, ltb,
}
use rust_whois.Text.{Str, codes}
use rust_whois.Error.{WhoisError, internal, Result, ok, err}
use rust_whois.Data.{WhoisResponse}
use rust_whois.Cache.{CacheBackend}

-- A client, its connection, and the commands `GET` and `SETEX`, on a world.
pub record Redis (W : Type 0) : Type 1 where
  pub Client : Type 0
  pub Connection : Type 0
  pub open_url : Str → Str ⊎ Client
  pub get_connection_manager : Client → W → (Str ⊎ Connection) × W
  pub get : Connection → Str → W → (Str ⊎ Option Str) × W
  pub set_ex : Connection → Str → Str → (seconds : ℕ) → W → (Str ⊎ Unit {0}) × W

-- serde_json on a response
pub record Json : Type 0 where
  pub to_string : WhoisResponse → Str ⊎ Str
  pub from_str : Str → Str ⊎ WhoisResponse

-- `ttl.as_secs().max(1)`
abbrev pub at_least_one : ℕ → ℕ
at_least_one ttl = if ltb ttl 1 then 1 else ttl

module _ {W : Type 0} (redis : Redis W) where
  open redis use {Client, Connection, open_url, get_connection_manager, get, set_ex}

  pub record RedisCache : Type 0 where
    pub client : Client
    pub key_prefix : Str

  abbrev from_client : Str ⊎ Client → Result RedisCache
  from_client (inl e) = err (internal (codes "Invalid Redis URL: " ++ e))
  from_client (inr client) = ok (record { client = client; key_prefix = codes "whois:" })

  unfoldable pub open_cache : Str → Result RedisCache
  open_cache url = from_client (open_url url)

  unfoldable pub with_key_prefix : RedisCache → Str → RedisCache
  with_key_prefix cache prefix = record cache { key_prefix = prefix }

  -- The cell of the connection, which the first success fills, and the world.
  abbrev pub Held : Type 0
  Held = Option Connection × W

  abbrev filled : (Str ⊎ Connection) × W → (Str ⊎ Connection) × Held
  filled (inl e, w) = (inl e, (none, w))
  filled (inr c, w) = (inr c, (some c, w))

  unfoldable pub connection : RedisCache → Held → (Str ⊎ Connection) × Held
  connection cache (none, w) = filled (get_connection_manager cache.client w)
  connection cache (some c, w) = (inr c, (some c, w))

  unfoldable pub prefixed_key : RedisCache → Str → Str
  prefixed_key cache key = cache.key_prefix ++ key

  abbrev pub parsed : Json → Str ⊎ Option Str → Str ⊎ Option WhoisResponse
  parsed json (inl e) = inl e
  parsed json (inr none) = inr none
  parsed json (inr (some text)) = elim (json.from_str text) [
    | inl e ↦ inl e
    | inr response ↦ inr (some response)
  ]

  abbrev pub get_on :
      Json → RedisCache → Str → (Str ⊎ Connection) × Held → (Str ⊎ Option WhoisResponse) × Held
  get_on json cache key (inl e, held) = (inl e, held)
  get_on json cache key (inr c, (cell, w)) =
      let (value, w') = get c (prefixed_key cache key) w in (parsed json value, (cell, w'))

  -- `get` of the trait
  unfoldable pub load : Json → RedisCache → Str → Held → (Str ⊎ Option WhoisResponse) × Held
  unfolding connection prefixed_key
  load json cache key held = get_on json cache key (connection cache held)

  abbrev pub set_on :
      RedisCache
      → (key text : Str) → (ttl : ℕ) → (Str ⊎ Connection) × Held
      → (Str ⊎ Unit {0}) × Held
  set_on cache key text ttl (inl e, held) = (inl e, held)
  set_on cache key text ttl (inr c, (cell, w)) =
      let (done_, w') = set_ex c (prefixed_key cache key) text (at_least_one ttl) w in
      (done_, (cell, w'))

  abbrev pub set_text :
      RedisCache → (key : Str) → (ttl : ℕ) → Str ⊎ Str → Held → (Str ⊎ Unit {0}) × Held
  set_text cache key ttl (inl e) held = (inl e, held)
  set_text cache key ttl (inr text) held = set_on cache key text ttl (connection cache held)

  -- `set` of the trait
  unfoldable pub store :
      Json → RedisCache → Str → WhoisResponse → (ttl : ℕ) → Held → (Str ⊎ Unit {0}) × Held
  unfolding connection prefixed_key
  store json cache key response ttl held = set_text cache key ttl (json.to_string response) held

  -- The backend that the cache uses.
  abbrev pub redis_backend : Json → RedisCache → CacheBackend Held
  redis_backend json cache = record { load = load json cache; store = store json cache }
