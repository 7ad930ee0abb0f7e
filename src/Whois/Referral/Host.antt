-- ===== src/Whois/Referral/Host.antt =====
-- src/whois.rs: the form of an extracted referral.
use rust_whois.Prelude.{
  ◌≡◌, ◌≢◌, refl, subst, false, List, [], ◌∷◌, Option, none, some, arith, All, if_rule,
  if◌then◌else◌, Bool-cases, inl, inr,
}
use rust_whois.Text.{
  Str, codes, starts_with, CaseMap, contains_any, split_once, to_lowercase, trim, lines,
}
use rust_whois.Whois.Referral.{
  plain_host, sanitize_referral_value, is_referral_key, referral_of_line, first_referral,
  extract_whois_server,
}

-- Not empty, and with no colon, slash or blank: what can be looked up as a host name, with no
-- scheme, port or path.
abbrev pub IsHost : Str → Type 0
IsHost s = (s ≢ []) × All (λ c. (c ≢ b':') × (c ≢ b'/') × (c ≢ b' ')) s

plain-All :
    (s : Str)
    → contains_any s (b':' ∷ b'/' ∷ b' ' ∷ []) ≡ false
    → All (λ c. (c ≢ b':') × (c ≢ b'/') × (c ≢ b' ')) s
unfolding contains_any
plain-All [] h = tt
plain-All (c ∷ s) h = (ground arith, plain-All s (ground arith))

plain_host-IsHost : (s : Str) {h : Str} → plain_host s ≡ some h → IsHost h
unfolding plain_host
plain_host-IsHost [] e = cc
plain_host-IsHost (c ∷ s) {h} e =
    elim (Bool-cases (contains_any (c ∷ s) (b':' ∷ b'/' ∷ b' ' ∷ []))) [
      | inl bad ↦ ground arith
      | inr good ↦
          let same : c ∷ s ≡ h = ground arith in subst IsHost same (λ p. cc, plain-All (c ∷ s) good)
    ]

abbrev HostOrNone : Option Str → Type 0
HostOrNone none = Unit
HostOrNone (some h) = IsHost h

HostOrNone-plain_host : (s : Str) → HostOrNone (plain_host s)
HostOrNone-plain_host s = go (plain_host s) refl
  where
    go : (o : Option Str) → plain_host s ≡ o → HostOrNone o
    go none e = tt
    go (some h) e = plain_host-IsHost s e

sanitize_referral_value-host :
    (m : CaseMap) (value : Str) → HostOrNone (sanitize_referral_value m value)
unfolding sanitize_referral_value
sanitize_referral_value-host m [] = tt
sanitize_referral_value-host m (c ∷ s) =
    if_rule HostOrNone (starts_with (to_lowercase m (c ∷ s)) (codes "rwhois://")) none _ (λ _. tt)
      (λ _. HostOrNone-plain_host _)

referral_of_line-host : (m : CaseMap) (line : Str) → HostOrNone (referral_of_line m line)
unfolding referral_of_line
referral_of_line-host m line =
    elim (split_once (trim line) b':')
      as (λ o. HostOrNone (elim o [
        | none ↦ none
        | some (key, value) ↦
            if is_referral_key (to_lowercase m (trim key))
            then sanitize_referral_value m (trim value)
            else none
      ])) [
        | none ↦ tt
        | some (key, value) ↦
            if_rule HostOrNone (is_referral_key (to_lowercase m (trim key)))
              (sanitize_referral_value m (trim value)) none
              (λ _. sanitize_referral_value-host m (trim value)) (λ _. tt)
      ]

first_referral-host : (m : CaseMap) (ls : List Str) → HostOrNone (first_referral m ls)
unfolding first_referral
first_referral-host m [] = tt
first_referral-host m (line ∷ ls) =
    go (referral_of_line m line) (referral_of_line-host m line) (first_referral-host m ls)
  where
    go :
        (o : Option Str)
        → HostOrNone o
        → HostOrNone (first_referral m ls)
        → HostOrNone (elim o [ some server ↦ some server | none ↦ first_referral m ls ])
    go none h rest = rest
    go (some s) h rest = h

-- Whatever the response says, a referral taken from it is a bare host name.
pub extract_whois_server-IsHost :
    (m : CaseMap) (text host : Str) → extract_whois_server m text ≡ some host → IsHost host
unfolding extract_whois_server
extract_whois_server-IsHost m text host e = subst HostOrNone e (first_referral-host m (lines text))
