-- ===== src/Tests/Server.antt =====
-- The handlers of the server and the settings from the environment, run on small inputs.
use rust_whois.Prelude.{
  ℕ, zero, suc, ◌≡◌, refl, Bool, true, false, [], Option, none, some, if◌then◌else◌, All, or_else,
}
use rust_whois.Text.{Str, codes, ascii_only, str_eq}
use rust_whois.Error.{Result, ok}
use rust_whois.Data.{WhoisResponse}
use rust_whois.Config.{Config, default_config}
use rust_whois.Config.Load.{Env, Builder, apply_env_overrides}
use rust_whois.Config.Load.Overrides.{Overriding, first_set, documented, apply_env_overrides-Takes}
use rust_whois.Server.RateLimiter.{Governor, new_limiter}
use rust_whois.Server.Handlers.{Server, perform_whois_lookup}
use rust_whois.Server.Handlers.Counted.{Tallied, shown_result, perform_whois_lookup-Tallied}
use rust_whois.Tests.{response}

-- A limiter with a number of queries left.
abbrev pub counting_down : Governor
counting_down = record {
  Limiter = ℕ;
  direct_per_hour = λ n. n;
  check = λ left. elim left [ zero ↦ (false, zero) | suc rest ↦ (true, rest) ];
}

abbrev pub answering : Str → Bool → ℕ → Result WhoisResponse × ℕ
answering query fresh w = (ok response, suc w)

abbrev pub idle : Server ℕ counting_down
idle = record { world = 0; rate_limiter = new_limiter counting_down; recorded = [] }

perform_whois_lookup-Tallied_example :
    let (out, s') = perform_whois_lookup ascii_only answering (codes "a.example") false true idle in
    (out ≡ shown_result true (ok response))
    × (s'.world ≡ 1)
    × Tallied [] s'.recorded 1 (ok response)
perform_whois_lookup-Tallied_example =
    perform_whois_lookup-Tallied ascii_only answering (codes "a.example") false true idle

abbrev pub machine : Config
machine = default_config 3000 2147483648 2147483 2 false

-- Settings as the function from keys to overrides.
abbrev by_key : Builder
by_key = record {
  Settings = Str → Option Str;
  builder = λ key. none;
  set_default = λ key value s. ok s;
  set_override = λ key value s. ok (λ other. if str_eq key other then some value else s other);
  build = λ s. ok machine;
}

by_key-Overriding : Overriding by_key (λ s. s)
by_key-Overriding = record {
  set_override-override = λ key value settings word. (_, refl, λ other word'. refl);
}

abbrev environment : Env
environment name = if str_eq name (codes "CACHE_TTL") then some (codes "60") else none

apply_env_overrides-Takes_example :
    (after : Str → Option Str) × (apply_env_overrides by_key environment (λ key. none) ≡ ok after)
    × All (λ setting. after setting.0 ≡ or_else (first_set environment setting.1) none) documented
apply_env_overrides-Takes_example =
    apply_env_overrides-Takes by_key (λ s. s) by_key-Overriding environment (λ key. none)
