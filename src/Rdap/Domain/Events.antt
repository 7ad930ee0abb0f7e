-- ===== src/Rdap/Domain/Events.antt =====
-- src/rdap.rs: the dates, the name servers and the statuses of a domain record.
use mathlib.Core.List.{append-nil, append_assoc}
use rust_whois.Prelude.{
  or_else-none, or_else_assoc, ◌≡◌, refl, sym, ap, ◌∙◌, subst, Bool, true, false, ◌&&◌, ◌||◌, List,
  [], ◌∷◌, ◌++◌, Option, none, some, if◌then◌else◌, or_else, is_none,
}
use rust_whois.Text.{Str, codes, str_eq, str_eq_iff}
use rust_whois.Data.{ParsedWhoisData, new}
use rust_whois.Rdap.Json.{and_then}
use rust_whois.Rdap.Domain.{
  RdapNameserver, RdapEvent, RdapDomainResponse, for_each, items_of, if_some, push_name,
  store_action, store_event, record_of,
}
use rust_whois.Rdap.Domain.Roles.{view, entities-Same}

abbrev pub is_registration : Str → Bool
is_registration action = str_eq action (codes "registration")

abbrev pub is_expiration : Str → Bool
is_expiration action = str_eq action (codes "expiration")

abbrev pub is_update : Str → Bool
is_update action =
    str_eq action (codes "last changed") || str_eq action (codes "last update of RDAP database")

-- The date of an event that has one, and an action that passes the test.
abbrev date_if : (Str → Bool) → RdapEvent → Option Str
date_if test e =
    and_then e.event_action
      (λ action. and_then e.event_date (λ date. if test action then some date else none))

abbrev pub first_date : (Str → Bool) → List RdapEvent → Option Str
first_date test [] = none
first_date test (e ∷ es) = or_else (date_if test e) (first_date test es)

abbrev pub last_date : (Str → Bool) → List RdapEvent → Option Str
last_date test [] = none
last_date test (e ∷ es) = or_else (last_date test es) (date_if test e)

abbrev pub names_of : List RdapNameserver → List Str
names_of [] = []
names_of (ns ∷ nss) = elim ns.ldh_name [ none ↦ names_of nss | some name ↦ name ∷ names_of nss ]

-- What one event with an action and a date does to the three dates.
abbrev Stored : ParsedWhoisData → Option Str → Option Str → Option Str → ParsedWhoisData → Type 0
Stored p reg exp upd q =
    (q.creation_date ≡ or_else reg p.creation_date)
    × (q.expiration_date ≡ or_else exp p.expiration_date)
    × (q.updated_date ≡ or_else p.updated_date upd)
    × (q.name_servers ≡ p.name_servers)
    × (q.status ≡ p.status)

abbrev given : (Str → Bool) → (action date : Str) → Option Str
given test action date = if test action then some date else none

-- The three kinds of event exclude each other.
registration-alone :
    (action : Str)
    → is_registration action ≡ true
    → (is_expiration action ≡ false) × (is_update action ≡ false)
unfolding str_eq
registration-alone action e =
    subst (λ a. (is_expiration a ≡ false) × (is_update a ≡ false))
      (sym ((str_eq_iff action (codes "registration")).0 e)) (refl, refl)

expiration-alone : (action : Str) → is_expiration action ≡ true → is_update action ≡ false
unfolding str_eq
expiration-alone action e =
    subst (λ a. is_update a ≡ false) (sym ((str_eq_iff action (codes "expiration")).0 e)) refl

store_action-Stored :
    (p : ParsedWhoisData) (action date : Str)
    → Stored p
        (given is_registration action date)
        (given is_expiration action date)
        (given is_update action date)
        (store_action p action date)
unfolding store_action
store_action-Stored p action date =
    go (is_registration action) (is_expiration action) (is_update action)
      (registration-alone action) (expiration-alone action)
  where
    go :
        (r e u : Bool)
        → (r ≡ true → (e ≡ false) × (u ≡ false))
        → (e ≡ true → u ≡ false)
        → Stored p
            (if r then some date else none)
            (if e then some date else none)
            (if u then some date else none)
            (if r
              then record p { creation_date = some date }
              else if e
              then record p { expiration_date = some date }
              else if u && is_none p.updated_date
              then record p { updated_date = some date }
              else p)
    go true e u alone alone' =
        let (no_e, no_u) = alone refl in
        rw (no_e, no_u) (refl, refl, sym (or_else-none p.updated_date), refl, refl)
    go false true u alone alone' =
        rw (alone' refl) (refl, refl, sym (or_else-none p.updated_date), refl, refl)
    go false false true alone alone' = first_wins p.updated_date refl
      where
        first_wins :
            (o : Option Str)
            → p.updated_date ≡ o
            → Stored p none none
                (some date)
                (if is_none p.updated_date then record p { updated_date = some date } else p)
        first_wins none e = rw e (refl, refl, refl, refl, refl)
        first_wins (some d) e = rw e (refl, refl, refl, refl, refl)
    go false false false alone alone' = (refl, refl, sym (or_else-none p.updated_date), refl, refl)

store_event-Stored :
    (p : ParsedWhoisData) (e : RdapEvent)
    → Stored p
        (date_if is_registration e)
        (date_if is_expiration e)
        (date_if is_update e)
        (store_event p e)
unfolding store_event
store_event-Stored p e = go e.event_action e.event_date
  where
    unchanged : Stored p none none none p
    unchanged = (refl, refl, sym (or_else-none p.updated_date), refl, refl)

    go :
        (a d : Option Str)
        → Stored p
            (and_then a (λ action. and_then d (λ date. given is_registration action date)))
            (and_then a (λ action. and_then d (λ date. given is_expiration action date)))
            (and_then a (λ action. and_then d (λ date. given is_update action date)))
            (if_some a (λ action. if_some d (λ date. store_action p action date) p) p)
    go none d = unchanged
    go (some action) none = unchanged
    go (some action) (some date) = store_action-Stored p action date

events-Stored :
    (p : ParsedWhoisData) (es : List RdapEvent)
    → Stored p
        (last_date is_registration es)
        (last_date is_expiration es)
        (first_date is_update es)
        (for_each store_event p es)
unfolding for_each
events-Stored p [] = (refl, refl, sym (or_else-none p.updated_date), refl, refl)
events-Stored p (e ∷ es) =
    let (c1, x1, u1, n1, s1) = store_event-Stored p e in
    let (c2, x2, u2, n2, s2) = events-Stored (store_event p e) es in
    let reg = last_date is_registration es in
    let exp = last_date is_expiration es in
    let upd = first_date is_update es in
    (
      c2
          ∙ ap (or_else reg) c1
          ∙ sym (or_else_assoc reg (date_if is_registration e) p.creation_date),
      x2
          ∙ ap (or_else exp) x1
          ∙ sym (or_else_assoc exp (date_if is_expiration e) p.expiration_date),
      u2 ∙ ap (λ o. or_else o upd) u1 ∙ or_else_assoc p.updated_date (date_if is_update e) upd,
      n2 ∙ n1,
      s2 ∙ s1,
    )

abbrev NamesAdded : ParsedWhoisData → List Str → ParsedWhoisData → Type 0
NamesAdded p names q =
    view q ≡ (p.creation_date, p.expiration_date, p.updated_date, p.name_servers ++ names, p.status)

push_names :
    (p : ParsedWhoisData) (nss : List RdapNameserver)
    → NamesAdded p (names_of nss) (for_each push_name p nss)
unfolding for_each push_name
push_names p [] = rw (append-nil p.name_servers) refl
push_names p (ns ∷ nss) = go ns.ldh_name (λ q. push_names q nss)
  where
    go :
        (o : Option Str)
        → ((q : ParsedWhoisData) → NamesAdded q (names_of nss) (for_each push_name q nss))
        → NamesAdded p
            (elim o [ none ↦ names_of nss | some name ↦ name ∷ names_of nss ])
            (for_each push_name
              (if_some o (λ name. record p { name_servers = p.name_servers ++ (name ∷ []) }) p)
              nss)
    go none ih = ih p
    go (some name) ih =
        rw (← append_assoc p.name_servers (name ∷ []) (names_of nss))
          (ih (record p { name_servers = p.name_servers ++ (name ∷ []) }))

-- The fields of `record_of`, read off the response itself.
abbrev pub IsRead : RdapDomainResponse → ParsedWhoisData → Type 0
IsRead rdap p =
    (p.creation_date ≡ last_date is_registration (items_of rdap.events))
    × (p.expiration_date ≡ last_date is_expiration (items_of rdap.events))
    × (p.updated_date ≡ first_date is_update (items_of rdap.events))
    × (p.name_servers ≡ names_of (items_of rdap.name_servers))
    × (p.status ≡ items_of rdap.status)

abbrev View : Type 0
View = Option Str × Option Str × Option Str × List Str × List Str

stated-view :
    (status : Option (List Str)) (p : ParsedWhoisData) (names : List Str)
    → view p ≡ (none, none, none, names, [])
    → view (if_some status (λ ss. record p { status = ss }) p)
      ≡ (none, none, none, names, items_of status)
stated-view none p names h = h
stated-view (some ss) p names h = ap (λ (v : View). (v.0, v.1, v.2, v.3, ss)) h

-- The record of a response has the date of the last registration and of the last expiration that
-- it lists, and of the first update; its name servers and its statuses are those of the response,
-- in its order.
pub record_of-IsRead : (rdap : RdapDomainResponse) → IsRead rdap (record_of rdap)
unfolding record_of
record_of-IsRead rdap =
    let named = for_each push_name new (items_of rdap.name_servers) in
    let names = names_of (items_of rdap.name_servers) in
    let stated = if_some rdap.status (λ status. record named { status = status }) named in
    let events = items_of rdap.events in
    let dated = for_each store_event stated events in
    let start = stated-view rdap.status named names (push_names new (items_of rdap.name_servers)) in
    let (c, x, u, n, s) = events-Stored stated events in
    let kept = entities-Same dated (items_of rdap.entities) in
    let reg = last_date is_registration events in
    let exp = last_date is_expiration events in
    (
      ap (λ (v : View). v.0) kept ∙ c ∙ ap (λ (v : View). or_else reg v.0) start ∙ or_else-none reg,
      ap (λ (v : View). v.1) kept ∙ x ∙ ap (λ (v : View). or_else exp v.1) start ∙ or_else-none exp,
      ap (λ (v : View). v.2) kept
          ∙ u
          ∙ ap (λ (v : View). or_else v.2 (first_date is_update events)) start,
      ap (λ (v : View). v.3) kept ∙ n ∙ ap (λ (v : View). v.3) start,
      ap (λ (v : View). v.4) kept ∙ s ∙ ap (λ (v : View). v.4) start,
    )
