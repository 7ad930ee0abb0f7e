-- ===== src/Client/Api/Built.antt =====
-- src/lib.rs: the clients that the constructors of `WhoisClient` give.
use rust_whois.Prelude.{◌≡◌}
use rust_whois.Config.{Config}
use rust_whois.Cache.{Cache, Tiers}
use rust_whois.Client.Lookup
use rust_whois.Client.Lookup.{direct, fetch_response}

-- The two tiers of the cache are as they were.
abbrev Untouched : {L B W : Type 0} {R : Type 0} → Tiers L B W → R × Tiers L B W → Type 0
Untouched s (answer, s') = (s'.local ≡ s.local) × (s'.shared ≡ s.shared)
