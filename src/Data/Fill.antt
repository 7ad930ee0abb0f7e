-- ===== src/Data/Fill.antt =====
-- `fill_missing_from` as an operation on parse results.
use rust_whois.Prelude.{◌≡◌, refl, List, [], ◌∷◌, Option, none, some}
use rust_whois.Data.{ParsedWhoisData, new, fill_option, fill_list, fill_missing_from}

module _ {ℓ} {A : Type ℓ} where
  fill_option_assoc :
      (a b c : Option A) → fill_option (fill_option a b) c ≡ fill_option a (fill_option b c)
  fill_option_assoc none b c = refl
  fill_option_assoc (some a) b c = refl

  fill_option_self : (a : Option A) → fill_option a a ≡ a
  fill_option_self none = refl
  fill_option_self (some a) = refl

  fill_option-none : (a : Option A) → fill_option a none ≡ a
  fill_option-none none = refl
  fill_option-none (some a) = refl

  fill_list_assoc : (a b c : List A) → fill_list (fill_list a b) c ≡ fill_list a (fill_list b c)
  fill_list_assoc [] b c = refl
  fill_list_assoc (x ∷ a) b c = refl

  fill_list_self : (a : List A) → fill_list a a ≡ a
  fill_list_self [] = refl
  fill_list_self (x ∷ a) = refl

  fill_list_nil : (a : List A) → fill_list a [] ≡ a
  fill_list_nil [] = refl
  fill_list_nil (x ∷ a) = refl

-- Filling from several fallbacks gives the same however the fills are grouped; a result filled from
-- itself, from the empty result, or into the empty result is unchanged.
pub fill_missing_from_monoid :
    (p q r : ParsedWhoisData)
    → (fill_missing_from (fill_missing_from p q) r ≡ fill_missing_from p (fill_missing_from q r))
      × (fill_missing_from p p ≡ p)
      × (fill_missing_from p new ≡ p)
      × (fill_missing_from new p ≡ p)
unfolding fill_missing_from
fill_missing_from_monoid p q r = (
  simp (fill_option_assoc, fill_list_assoc),
  simp (fill_option_self, fill_list_self),
  simp (fill_option-none, fill_list_nil),
  refl,
)
