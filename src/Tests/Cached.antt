-- ===== src/Tests/Cached.antt =====
-- The cache and the configuration, run on small inputs.
use rust_whois.Prelude.{
  ℕ, suc, ◌≤◌, ◌*◌, ◌≡◌, refl, true, false, List, [], ◌∷◌, Option, none, some, ◌⊎◌, inl, inr, All,
  arith,
}
use rust_whois.Text.{Str, codes}
use rust_whois.Error.{Result, ok}
use rust_whois.Data.{WhoisResponse}
use rust_whois.Cache.{CacheBackend, CacheService, Tiers, get_or_fetch}
use rust_whois.Cache.Policy
use rust_whois.Cache.Policy.{
  Op, getting, setting, fetching, Storable, perform_all, perform_all-Stored,
}
use rust_whois.Cache.Fresh.{Honest, get_or_fetch-Honest}
use rust_whois.Cache.Degrade.{Fails, SameView, get_or_fetch-Fails}
use rust_whois.Config.{Config, validate, default_config}
use rust_whois.Config.Defaults.{default_config-validate}
use rust_whois.Tests.{one_slot, response}

-- A fetch that counts.
abbrev fetch_one : ℕ → Result WhoisResponse × ℕ
fetch_one w = (ok response, suc w)

abbrev name : Str
name = codes "a.example."

abbrev no_hit : Policy.Writes → Str → Str ⊎ Option WhoisResponse
no_hit log key = inr none

abbrev stored : Policy.Writes → Str → Str ⊎ Unit {0}
stored log key = inr tt

abbrev logging : CacheService (Option WhoisResponse) Policy.Writes
logging = record {
  cache = one_slot;
  backend = some (Policy.logged no_hit stored);
  positive_ttl = 3600;
  negative_ttl = 300;
}

abbrev operations : List (Op ℕ)
operations = fetching name fetch_one false ∷ setting name response ∷ getting name ∷ []

abbrev nothing : Tiers (Option WhoisResponse) Policy.Writes ℕ
nothing = record { local = none; shared = []; net = 0 }

perform_all-Stored_example : All (Storable 3600 300) (perform_all logging operations nothing).shared
perform_all-Stored_example =
    perform_all-Stored one_slot no_hit stored 3600 300 operations nothing tt

get_or_fetch-Honest_example : Honest fetch_one 0 (get_or_fetch logging name fetch_one false nothing)
get_or_fetch-Honest_example = get_or_fetch-Honest logging name fetch_one false nothing

abbrev broken : CacheBackend (List Str)
broken = record {
  load = λ key b. (inl (codes "down"), b);
  store = λ key r ttl b. (inl (codes "down"), b);
}

abbrev one_tier : CacheService (Option WhoisResponse) (List Str)
one_tier = record { cache = one_slot; backend = none; positive_ttl = 3600; negative_ttl = 300 }

broken-Fails : Fails broken
broken-Fails key b = (codes "down", refl)

abbrev start : Tiers (Option WhoisResponse) (List Str) ℕ
start = record { local = none; shared = []; net = 0 }

get_or_fetch-Fails_example :
    SameView
      (get_or_fetch (record one_tier { backend = some broken }) name fetch_one true start)
      (get_or_fetch (record one_tier { backend = none }) name fetch_one true start)
get_or_fetch-Fails_example =
    get_or_fetch-Fails one_tier broken broken-Fails name fetch_one true start

abbrev small_machine : Config
small_machine = default_config 3000 2147483648 2147483 2 false

default_config-validate_example :
    (validate small_machine ≡ ok tt)
    × (small_machine.buffer_size ≤ small_machine.max_response_size)
    × (1024 * 1024 ≤ small_machine.max_response_size)
    × (small_machine.max_response_size ≤ 10 * 1024 * 1024)
    × (small_machine.concurrent_whois_queries ≤ 8)
default_config-validate_example =
    default_config-validate 3000 2147483648 2147483 2 false (omega arith) (omega arith)
