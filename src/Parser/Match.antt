-- ===== src/Parser/Match.antt =====
-- A `match` whose arms have guards: the first arm whose guard holds is taken.
use rust_whois.Prelude.{◌≡◌, refl, Bool, true, false, List, [], ◌∷◌, if◌then◌else◌, All}

abbrev pub first_arm {ℓ} : {A : Type ℓ} → List (Bool × A) → A → A
first_arm [] otherwise = otherwise
first_arm ((guard, result) ∷ arms) otherwise = if guard then result else first_arm arms otherwise

-- What holds of every arm under its guard, and of the last resort, holds of the match.
pub first_arm_rule {ℓ κ} :
    {A : Type ℓ} (P : A → Type κ) (arms : List (Bool × A)) (otherwise : A)
    → All (λ arm. arm.0 ≡ true → P arm.1) arms
    → P otherwise
    → P (first_arm arms otherwise)
first_arm_rule P [] otherwise h o = o
first_arm_rule P ((true, result) ∷ arms) otherwise (h, hs) o = h refl
first_arm_rule P ((false, result) ∷ arms) otherwise (h, hs) o = first_arm_rule P arms otherwise hs o
