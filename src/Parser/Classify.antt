-- ===== src/Parser/Classify.antt =====
-- `classify_response`.
use mathlib.Core.Bool.{false≢true, or-true}
use mathlib.Core.List.{Memᴰ}
use rust_whois.Prelude.{
  Bool, true, false, not, ◌||◌, List, [], ◌∷◌, ◌≡◌, refl, arith, if◌then◌else◌, is_some, any,
  Bool-cases, inl, inr, none, sym, ◌∙◌, subst, ◌↔◌,
}
use rust_whois.Text.{Str, codes, CaseMap, contains, contains_iff, Infix, to_lowercase}
use rust_whois.Data.{LookupStatus, found, not_found, rate_limited, ParsedWhoisData}

unfoldable pub rate_limit_patterns : List Str
rate_limit_patterns =
    codes "rate limit"
    ∷ codes "ratelimit"
    ∷ codes "quota exceeded"
    ∷ codes "exceeded your quota"
    ∷ codes "lookup quota"
    ∷ codes "number of allowed queries exceeded"
    ∷ codes "exceeded the maximum"
    ∷ codes "maximum number of queries"
    ∷ codes "whois limit exceeded"
    ∷ codes "too many requests"
    ∷ codes "excessive quer"
    ∷ codes "request limit reached"
    ∷ codes "access denied"
    ∷ codes "connection limit"
    ∷ []

unfoldable pub not_found_patterns : List Str
not_found_patterns =
    codes "no match"
    ∷ codes "not found"
    ∷ codes "no data found"
    ∷ codes "no entries found"
    ∷ codes "no object found"
    ∷ codes "object does not exist"
    ∷ codes "nothing found"
    ∷ codes "not registered"
    ∷ codes "no information available"
    ∷ codes "status: available"
    ∷ codes "status: free"
    ∷ codes "is available for registration"
    ∷ []

abbrev pub is_empty {ℓ} : {A : Type ℓ} → List A → Bool
is_empty [] = true
is_empty (x ∷ xs) = false

-- `has_record_data`
unfoldable pub has_record_data : ParsedWhoisData → Bool
has_record_data p = is_some p.registrar || is_some p.creation_date || not (is_empty p.name_servers)

-- One of the patterns stands in the text.
unfoldable pub mentions : Str → List Str → Bool
mentions lower patterns = any (contains lower) patterns

unfoldable pub classify_response : CaseMap → Str → ParsedWhoisData → LookupStatus
classify_response m raw_data p =
    let lower = to_lowercase m raw_data in
    if has_record_data p
    then found
    else if mentions lower rate_limit_patterns
    then rate_limited
    else if mentions lower not_found_patterns
    then not_found
    else found

-- One of the patterns is a part of the text.
abbrev pub Mentions : Str → List Str → Type 0
Mentions lower patterns = (p : Str) × Memᴰ p patterns × Infix p lower

-- No registrar, no creation date and no name server.
abbrev pub HasNoRecord : ParsedWhoisData → Type 0
HasNoRecord p = (p.registrar ≡ none) × (p.creation_date ≡ none) × (p.name_servers ≡ [])

mentions_sound : (lower : Str) (ps : List Str) → mentions lower ps ≡ true → Mentions lower ps
unfolding mentions
mentions_sound lower [] h = cc
mentions_sound lower (p ∷ ps) h = elim (Bool-cases (contains lower p)) [
  | inl here ↦ (p, Memᴰ.head refl, (contains_iff lower p).0 here)
  | inr later ↦ let (q, m, i) = mentions_sound lower ps (rw later at h) in (q, Memᴰ.tail m, i)
]

mentions_complete :
    (lower : Str) (ps : List Str) (p : Str) → Memᴰ p ps → Infix p lower → mentions lower ps ≡ true
unfolding mentions
mentions_complete lower [] p m i = elim m [ ]
mentions_complete lower (q ∷ ps) p (Memᴰ.head same) i =
    rw ((contains_iff lower q).1 (subst (λ s. Infix s lower) same i))
mentions_complete lower (q ∷ ps) p (Memᴰ.tail m) i =
    rw (mentions_complete lower ps p m i) (or-true (contains lower q))

mentions_iff : (lower : Str) (ps : List Str) → (mentions lower ps ≡ true) ↔ Mentions lower ps
mentions_iff lower ps = (mentions_sound lower ps, λ (p, m, i). mentions_complete lower ps p m i)

has_record_data_iff : (p : ParsedWhoisData) → (has_record_data p ≡ false) ↔ HasNoRecord p
unfolding has_record_data
has_record_data_iff p = ground arith

-- A response is classified as rate limited exactly if the parse found no record data and the text
-- in lower case has a phrase of throttling; as not found exactly if there is no record data, no
-- phrase of throttling, and a phrase of absence; and as found exactly in the other cases.
pub classify_response_iff :
    (m : CaseMap) (raw : Str) (p : ParsedWhoisData)
    → ((classify_response m raw p ≡ rate_limited)
        ↔ (HasNoRecord p × Mentions (to_lowercase m raw) rate_limit_patterns))
      × ((classify_response m raw p ≡ not_found) ↔ (
          HasNoRecord p
          × (¬ (Mentions (to_lowercase m raw) rate_limit_patterns))
          × Mentions (to_lowercase m raw) not_found_patterns))
      × ((classify_response m raw p ≡ found) ↔ (
          HasNoRecord p
          → (¬ (Mentions (to_lowercase m raw) rate_limit_patterns))
            × (¬ (Mentions (to_lowercase m raw) not_found_patterns))))
unfolding classify_response
classify_response_iff m raw p =
    let (r0, r1) = has_record_data_iff p in
    let (l0, l1) = mentions_iff (to_lowercase m raw) rate_limit_patterns in
    let (n0, n1) = mentions_iff (to_lowercase m raw) not_found_patterns in
    elim (Bool-cases (has_record_data p)) [
      | inl rec ↦
          let no_rec : ¬ (HasNoRecord p) = λ h. false≢true (sym (r1 h) ∙ rec) in
          rw rec (
            (λ h. cc, λ h. absurd (no_rec h.0)),
            (λ h. cc, λ h. absurd (no_rec h.0)),
            (λ h k. absurd (no_rec k), λ h. refl),
          )
      | inr norec ↦ elim (Bool-cases (mentions (to_lowercase m raw) rate_limit_patterns)) [
        | inl limited ↦
            rw (norec, limited)
              (
                (λ h. (r0 norec, l0 limited), λ h. refl),
                (λ h. cc, λ h. absurd (h.1 (l0 limited))),
                (λ h. cc, λ h. absurd ((h (r0 norec)).0 (l0 limited))),
              )
        | inr free ↦
            let unlimited : ¬ (Mentions (to_lowercase m raw) rate_limit_patterns) =
              λ h. false≢true (sym free ∙ l1 h) in
            elim (Bool-cases (mentions (to_lowercase m raw) not_found_patterns)) [
              | inl absent ↦
                  rw (norec, free, absent)
                    (
                      (λ h. cc, λ h. absurd (unlimited h.1)),
                      (λ h. (r0 norec, unlimited, n0 absent), λ h. refl),
                      (λ h. cc, λ h. absurd ((h (r0 norec)).1 (n0 absent))),
                    )
              | inr silent ↦
                  let quiet : ¬ (Mentions (to_lowercase m raw) not_found_patterns) =
                    λ h. false≢true (sym silent ∙ n1 h) in
                  rw (norec, free, silent)
                    (
                      (λ h. cc, λ h. absurd (unlimited h.1)),
                      (λ h. cc, λ h. absurd (quiet h.2)),
                      (λ h k. (unlimited, quiet), λ h. refl),
                    )
            ]
      ]
    ]
