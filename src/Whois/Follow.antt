-- ===== src/Whois/Follow.antt =====
-- src/whois.rs: `follow_referrals`. The network is the parameter `ask`, which stands for
-- `referral_whois_query` and threads a state `W` of its own.
pub mod Log
use rust_whois.Prelude.{ℕ, zero, suc, List, [], ◌∷◌, Option, none, some, if◌then◌else◌}
use rust_whois.Text.{Str, CaseMap, mem_str}
use rust_whois.Error.{Result, ok, err}
use rust_whois.Whois.Referral.{extract_whois_server}

module _ {W : Type 0} (ask : Str → Str → W → Result Str × W) (m : CaseMap) (domain : Str) where
  -- The `while` loop, with `left` for `max_referrals - referral_count`: every way round it either
  -- counts one more referral or breaks.
  unfoldable pub follow : (left : ℕ) → List Str → Str → Str → W → (Str × Str) × W
  follow zero visited server text w = ((server, text), w)
  follow (suc left) visited server text w = elim (extract_whois_server m text) [
    | none ↦ ((server, text), w)
    | some referral ↦
        if mem_str visited referral
        then ((server, text), w)
        else let (answer, w') = ask referral domain w in
          elim answer [
            | ok new_text ↦ follow left (referral ∷ visited) referral new_text w'
            | err e ↦ ((server, text), w')
          ]
  ]

  unfoldable pub follow_referrals : (max_referrals : ℕ) → Str → Str → W → (Str × Str) × W
  unfolding follow
  follow_referrals max_referrals initial_server initial_data w =
      follow max_referrals (initial_server ∷ []) initial_server initial_data w
