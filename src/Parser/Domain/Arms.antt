-- ===== src/Parser/Domain/Arms.antt =====
-- A rule for statements about `store_field`: one premise for each arm of its `match`.
use rust_whois.Prelude.{
  ◌≡◌, Bool, true, false, not, ◌&&◌, [], ◌∷◌, ◌++◌, Option, none, some, arith, and_left, and_right,
  is_none, none_of_is_none,
}
use rust_whois.Text.{Str, CaseMap, mem_str, first_word}
use rust_whois.Data.{ParsedWhoisData}
use rust_whois.Parser.Domain.{
  is_address, push_new, store_field, arms, is_expiration, is_creation, is_updated, is_registrar,
  is_status, is_registrant_name, is_email_of,
}
use rust_whois.Parser.Match.{first_arm_rule}

-- The guard of an arm that wants an empty field.
empty_of_guard : (a : Bool) (o : Option Str) → (a && is_none o) ≡ true → o ≡ none
empty_of_guard a o h = none_of_is_none o (and_right a (is_none o) h)

empty_of_guard3 :
    (a b : Bool) (o : Option Str) → (a && is_none o && b) ≡ true → (o ≡ none) × (b ≡ true)
empty_of_guard3 a b o h =
    (empty_of_guard a o (and_left (a && is_none o) b h), and_right (a && is_none o) b h)

false_of_not : (b : Bool) → not b ≡ true → b ≡ false
false_of_not b h = ground arith

module _ {ℓ} (P : ParsedWhoisData → Type ℓ) (m : CaseMap) (p : ParsedWhoisData)
    (k value : Str) where
  pub store_field_rule :
      (p.expiration_date ≡ none → P (record p { expiration_date = some value }))
      → (p.creation_date ≡ none → P (record p { creation_date = some value }))
      → (p.updated_date ≡ none → P (record p { updated_date = some value }))
      → (p.registrar ≡ none → P (record p { registrar = some value }))
      → P (record p { name_servers = push_new p.name_servers (first_word value) })
      → (mem_str p.status value ≡ false → P (record p { status = p.status ++ (value ∷ []) }))
      → (p.registrant_name ≡ none → P (record p { registrant_name = some value }))
      → (p.registrant_email ≡ none
          → is_address m value ≡ true
          → P (record p { registrant_email = some value }))
      → (p.admin_email ≡ none
          → is_address m value ≡ true
          → P (record p { admin_email = some value }))
      → (p.tech_email ≡ none → is_address m value ≡ true → P (record p { tech_email = some value }))
      → P p
      → P (store_field m p k value)
  unfolding store_field arms
  store_field_rule expiration creation updated registrar server status name email admin tech else =
      first_arm_rule P (arms m p k value) p
        (
          λ e. expiration (empty_of_guard (is_expiration k) p.expiration_date e),
          (
            λ e. creation (empty_of_guard (is_creation k) p.creation_date e),
            (
              λ e. updated (empty_of_guard (is_updated k) p.updated_date e),
              (
                λ e. registrar (empty_of_guard (is_registrar k) p.registrar e),
                (
                  λ e. server,
                  (
                    λ e.
                        status (
                          false_of_not _
                            (and_right (is_status k) (not (mem_str p.status value)) e)),
                    (
                      λ e. name (empty_of_guard3 (is_registrant_name k) _ p.registrant_name e).0,
                      (
                        λ e.
                            let (a, b) =
                              empty_of_guard3 (is_email_of "registrant" k) _ p.registrant_email e in
                            email a b,
                        (
                          λ e.
                              let (a, b) =
                                empty_of_guard3 (is_email_of "admin" k) _ p.admin_email e in
                              admin a b,
                          (
                            λ e.
                                let (a, b) =
                                  empty_of_guard3 (is_email_of "tech" k) _ p.tech_email e in
                                tech a b,
                            tt,
                          ),
                        ),
                      ),
                    ),
                  ),
                ),
              ),
            ),
          ),
        )
        else
