-- ===== src/Config/Load/Overrides.antt =====
-- src/config.rs: the names of the settings in the environment.
use rust_whois.Prelude.{
  ℕ, ◌&&◌, ◌||◌, leb, ◌==◌, all, ◌≡◌, refl, sym, ◌∙◌, ap, Bool, true, false, List, [], ◌∷◌, ◌++◌,
  Option, none, some, if◌then◌else◌, or_else, or_else-none, or_else_assoc, All, arith,
}
use rust_whois.Text.{Str, codes, str_eq}
use rust_whois.Error.{ok}
use rust_whois.Config.Load.{
  Env, Builder, env_mappings, apply_mappings, apply_env_overrides, override_with,
}

-- A lower-case letter of ASCII or `_`.
abbrev is_word_char : ℕ → Bool
is_word_char c = (leb b'a' c && leb c b'z') || (c == b'_')

-- A key that is a path of a single identifier, in lower-case letters and `_`.
abbrev pub IsIdentifier : Str → Type 0
IsIdentifier [] = ⊥
IsIdentifier (c ∷ key) = all is_word_char (c ∷ key) ≡ true

-- What the crate documents of `set_override`: it fails only where the key is no path, and the value
-- stands over every earlier one of that key. Of keys, it is only asked about single identifiers,
-- none of which is a part of another one's path.
pub record Overriding (b : Builder) (override : b.Settings → Str → Option Str) : Type 0 where
  pub set_override-override :
      (key value : Str) (settings : b.Settings)
      → IsIdentifier key
      → (after : b.Settings) × (b.set_override key value settings ≡ ok after)
        × ((other : Str)
            → IsIdentifier other
            → override after other
              ≡ (if str_eq key other then some value else override settings other))

-- The first variable that is set.
abbrev pub first_set : Env → List Str → Option Str
first_set var [] = none
first_set var (name ∷ names) = or_else (var name) (first_set var names)

-- The settings, each with its names in the environment: a short name before the long one.
abbrev pub documented : List (Str × List Str)
documented =
    (codes "port", codes "PORT" ∷ [])
    ∷ (codes "whois_timeout_seconds", codes "WHOIS_TIMEOUT" ∷ codes "WHOIS_TIMEOUT_SECONDS" ∷ [])
    ∷ (codes "max_response_size", codes "MAX_RESPONSE_SIZE" ∷ [])
    ∷ (codes "cache_ttl_seconds", codes "CACHE_TTL" ∷ codes "CACHE_TTL_SECONDS" ∷ [])
    ∷ (
      codes "negative_cache_ttl_seconds",
      codes "NEGATIVE_CACHE_TTL" ∷ codes "NEGATIVE_CACHE_TTL_SECONDS" ∷ [],
    )
    ∷ (codes "cache_max_entries", codes "CACHE_SIZE" ∷ codes "CACHE_MAX_ENTRIES" ∷ [])
    ∷ (codes "max_referrals", codes "MAX_REFERRALS" ∷ [])
    ∷ (
      codes "discovery_timeout_seconds",
      codes "DISCOVERY_TIMEOUT" ∷ codes "DISCOVERY_TIMEOUT_SECONDS" ∷ [],
    )
    ∷ (codes "concurrent_whois_queries", codes "CONCURRENT_WHOIS_QUERIES" ∷ [])
    ∷ (codes "buffer_pool_size", codes "BUFFER_POOL_SIZE" ∷ [])
    ∷ (codes "buffer_size", codes "BUFFER_SIZE" ∷ [])
    ∷ []

-- The variables that are mapped to a key, the last one first.
unfoldable pub variables_of : List (Str × Str) → Str → List Str
unfolding str_eq
variables_of [] key = []
variables_of ((env_var, config_key) ∷ mappings) key =
    variables_of mappings key ++ (if str_eq config_key key then env_var ∷ [] else [])

first_set-++ :
    (var : Env) (names more : List Str)
    → first_set var (names ++ more) ≡ or_else (first_set var names) (first_set var more)
first_set-++ var [] more = refl
first_set-++ var (name ∷ names) more =
    ap (or_else (var name)) (first_set-++ var names more)
    ∙ sym (or_else_assoc (var name) (first_set var names) (first_set var more))

first_set-if :
    (var : Env) (same : Bool) (name : Str) (z : Option Str)
    → or_else (if same then var name else none) z
      ≡ or_else (first_set var (if same then name ∷ [] else [])) z
first_set-if var true name z = ap (λ o. or_else o z) (sym (or_else-none (var name)))
first_set-if var false name z = refl

keys_are_identifiers : All (λ mapping. IsIdentifier mapping.1) env_mappings
unfolding env_mappings
keys_are_identifiers = ground arith

module _ (b : Builder) (override : b.Settings → Str → Option Str)
    (overriding : Overriding b override) (var : Env) where
  override_with-override :
      (key : Str) (value : Option Str) (settings : b.Settings)
      → IsIdentifier key
      → (after : b.Settings) × (override_with b key value settings ≡ ok after)
        × ((other : Str)
            → IsIdentifier other
            → override after other
              ≡ or_else (if str_eq key other then value else none) (override settings other))
  override_with-override key none settings word = (settings, refl, λ other word'. ground arith)
  override_with-override key (some value) settings word =
      let (after, e, set) = overriding.set_override-override key value settings word in
      (after, e, λ other word'. let at_other = set other word' in ground arith)

  apply_mappings-override :
      (mappings : List (Str × Str)) (settings : b.Settings)
      → All (λ mapping. IsIdentifier mapping.1) mappings
      → (after : b.Settings) × (apply_mappings b mappings var settings ≡ ok after)
        × ((key : Str)
            → IsIdentifier key
            → override after key
              ≡ or_else (first_set var (variables_of mappings key)) (override settings key))
  unfolding apply_mappings variables_of
  apply_mappings-override [] settings words = (settings, refl, λ key word'. refl)
  apply_mappings-override ((env_var, config_key) ∷ mappings) settings (word, words) =
      let (mid, e, set) = override_with-override config_key (var env_var) settings word in
      let (after, run, sets) = apply_mappings-override mappings mid words in
      (
        after,
        rw e run,
        λ key word'.
            let earlier = first_set var (variables_of mappings key) in
            let found = if str_eq config_key key then env_var ∷ [] else [] in
            sets key word'
            ∙ ap (or_else earlier) (
                set key word'
                ∙ first_set-if var (str_eq config_key key) env_var (override settings key))
            ∙ sym (or_else_assoc earlier (first_set var found) (override settings key))
            ∙ ap (λ o. or_else o (override settings key))
                (sym (first_set-++ var (variables_of mappings key) found)),
      )

  abbrev Takes : b.Settings → b.Settings → Str × List Str → Type 0
  Takes before after (key, names) =
      override after key ≡ or_else (first_set var names) (override before key)

  -- The overrides succeed, and each setting takes the value of the first of its names that is set in
  -- the environment, a short name before the long one, and keeps its value where none is set.
  pub apply_env_overrides-Takes :
      (settings : b.Settings)
      → (after : b.Settings) × (apply_env_overrides b var settings ≡ ok after)
        × All (Takes settings after) documented
  unfolding apply_env_overrides env_mappings variables_of str_eq
  apply_env_overrides-Takes settings =
      let (after, run, sets) = apply_mappings-override env_mappings settings keys_are_identifiers in
      (
        after,
        run,
        (
          sets _ refl,
          (
            sets _ refl,
            (
              sets _ refl,
              (
                sets _ refl,
                (
                  sets _ refl,
                  (
                    sets _ refl,
                    (sets _ refl, (sets _ refl, (sets _ refl, (sets _ refl, (sets _ refl, tt))))),
                  ),
                ),
              ),
            ),
          ),
        ),
      )
