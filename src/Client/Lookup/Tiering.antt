-- ===== src/Client/Lookup/Tiering.antt =====
-- src/lib.rs: which services an answer of the client comes from.
use rust_whois.Prelude.{
  String, ℕ, ◌++◌, ◌≡◌, refl, sym, ap, subst, Bool, true, false, Option, none, some, if◌then◌else◌,
  Bool-cases, if_rule, inl, inr,
}
use rust_whois.Text.{Str, codes}
use rust_whois.Error.{WhoisError, Result, ok, err}
use rust_whois.Data.{LookupResult, WhoisResponse}
use rust_whois.Cache.{CacheService, Tiers, get_or_fetch, mark_cached}
use rust_whois.Cache.Fresh.{Honest, get_or_fetch-Honest}
use rust_whois.Client.Lookup.{
  Services, prefixed, or_whois, lookup_with_fallback, packaged, fetch_response, direct, through,
  retimed, lookup_internal,
}

then_of : (A B : Type 0) (b : Bool) → b ≡ true → (if b then A else B) → A
then_of A B true e a = a
then_of A B false e b = cc

else_of : (A B : Type 0) (b : Bool) → b ≡ false → (if b then A else B) → B
else_of A B true e a = cc
else_of A B false e b = b

if_false : (A B : Type 0) (b : Bool) → b ≡ false → B → (if b then A else B)
if_false A B true e x = cc
if_false A B false e x = x

module _ {W : Type 0} (services : Services W) (query : Str) (ip : Bool)
    (query_time elapsed : ℕ) where
  -- A response with the result of a protocol, under the label of the protocol.
  abbrev Carries : String → LookupResult → Result WhoisResponse → Type 0
  Carries label result (err e) = ⊥
  Carries label result (ok r) =
      (r.domain ≡ query)
      × (r.whois_server ≡ codes label ++ result.server)
      × (r.raw_data ≡ result.raw_data)
      × (r.parsed_data ≡ result.parsed_data)
      × (r.lookup_status ≡ result.status)
      × (r.query_time_ms ≡ query_time)

  abbrev Failed : Result WhoisResponse → Type 0
  Failed (err e) = Unit
  Failed (ok r) = ⊥

  abbrev asked_rdap : W → Result LookupResult × W
  asked_rdap w = if ip then services.rdap_lookup_ip query w else services.rdap_lookup query w

  abbrev asked_whois : W → Result LookupResult × W
  asked_whois w = if ip then services.whois_lookup_ip query w else services.whois_lookup query w

  abbrev FromWhois : Result LookupResult × W → Result WhoisResponse → W → Type 0
  FromWhois (ok result, w) answer net = Carries "WHOIS: " result answer × (net ≡ w)
  FromWhois (err e, w) answer net = Failed answer × (net ≡ w)

  -- The answer to one query over RDAP, and to one more over WHOIS only where RDAP fails; an error
  -- only where both fail. The world is the one that the last of them leaves.
  abbrev FromRdap : Result LookupResult × W → Result WhoisResponse → W → Type 0
  FromRdap (ok result, w) answer net = Carries "RDAP: " result answer × (net ≡ w)
  FromRdap (err e, w) answer net = FromWhois (asked_whois w) answer net

  -- A cached response costs no query and reports the time of this request; anything else is what the
  -- two protocols give.
  abbrev pub Answers : {L B : Type 0} → W → Result WhoisResponse × Tiers L B W → Type 0
  Answers w (err e, s) = FromRdap (asked_rdap w) (err e) s.net
  Answers w (ok r, s) =
      if r.cached
      then ((s.net ≡ w) × (r.query_time_ms ≡ elapsed))
      else FromRdap (asked_rdap w) (ok r) s.net

  packaged-FromWhois :
      (x : Result LookupResult × W)
      → FromWhois x (packaged services query query_time (prefixed "WHOIS: " x.0)) x.1
  packaged-FromWhois (ok result, w) = ((refl, refl, refl, refl, refl, refl), refl)
  packaged-FromWhois (err e, w) = (tt, refl)

  packaged-FromRdap :
      (x : Result LookupResult × W)
      → let (answer, w) = or_whois services query ip x.0 x.1 in
        FromRdap x (packaged services query query_time answer) w
  packaged-FromRdap (ok result, w) = ((refl, refl, refl, refl, refl, refl), refl)
  packaged-FromRdap (err e, w) = packaged-FromWhois (asked_whois w)

  fetch_response-FromRdap :
      (w : W)
      → let (answer, w') = fetch_response services query ip query_time w in
        FromRdap (asked_rdap w) answer w'
  unfolding fetch_response lookup_with_fallback
  fetch_response-FromRdap w = packaged-FromRdap (asked_rdap w)

  abbrev Uncached : Result WhoisResponse → Type 0
  Uncached (err e) = Unit
  Uncached (ok r) = r.cached ≡ false

  packaged-Uncached :
      (answer : Result LookupResult) → Uncached (packaged services query query_time answer)
  packaged-Uncached (ok result) = refl
  packaged-Uncached (err e) = tt

  -- What a fetch gives.
  fetched-FromRdap :
      (w net : W) (answer : Result WhoisResponse)
      → (fetch_response services query ip query_time w).0 ≡ answer
      → net ≡ (fetch_response services query ip query_time w).1
      → FromRdap (asked_rdap w) answer net
  fetched-FromRdap w net answer e same = subst (FromRdap (asked_rdap w) answer) (sym same) (
      subst (λ a. FromRdap (asked_rdap w) a (fetch_response services query ip query_time w).1) e
        (fetch_response-FromRdap w))

  -- The mark of the cache is not among what is carried.
  mark_cached-FromWhois :
      (x : Result LookupResult × W) (r : WhoisResponse) (net : W)
      → FromWhois x (ok r) net
      → FromWhois x (ok (mark_cached r false)) net
  mark_cached-FromWhois (ok result, w) r net from = from
  mark_cached-FromWhois (err e, w) r net from = from

  mark_cached-FromRdap :
      (x : Result LookupResult × W) (r : WhoisResponse) (net : W)
      → FromRdap x (ok r) net
      → FromRdap x (ok (mark_cached r false)) net
  mark_cached-FromRdap (ok result, w) r net from = from
  mark_cached-FromRdap (err e, w) r net from = mark_cached-FromWhois (asked_whois w) r net from

  -- Nor is which error it is, as waiting callers get a copy of it.
  copied-FromWhois :
      (x : Result LookupResult × W) (reason e : WhoisError) (net : W)
      → FromWhois x (err reason) net
      → FromWhois x (err e) net
  copied-FromWhois (ok result, w) reason e net from = from
  copied-FromWhois (err failure, w) reason e net from = from

  copied-FromRdap :
      (x : Result LookupResult × W) (reason e : WhoisError) (net : W)
      → FromRdap x (err reason) net
      → FromRdap x (err e) net
  copied-FromRdap (ok result, w) reason e net from = from
  copied-FromRdap (err failure, w) reason e net from =
      copied-FromWhois (asked_whois w) reason e net from

  retimed-uncached : (r : WhoisResponse) → r.cached ≡ false → retimed elapsed (ok r) ≡ ok r
  retimed-uncached r miss =
      ap (λ hit. ok (if hit then record r { query_time_ms = elapsed } else r)) miss

  module _ {L B : Type 0} where
    uncached-Answers :
        (w : W) (r : WhoisResponse) (s : Tiers L B W)
        → r.cached ≡ false
        → FromRdap (asked_rdap w) (ok r) s.net
        → Answers w (ok r, s)
    uncached-Answers w r s miss from = if_false _ _ r.cached miss from

    retimed-Answers :
        (w : W) (r : Result WhoisResponse) (s : Tiers L B W)
        → Honest (fetch_response services query ip query_time) w (r, s)
        → Answers w (retimed elapsed r, s)
    retimed-Answers w (err e) s ((reason, failed), net) =
        copied-FromRdap (asked_rdap w) reason e s.net
          (fetched-FromRdap w s.net (err reason) failed net)
    retimed-Answers w (ok r) s h = elim (Bool-cases r.cached) [
      | inl hit ↦ rw hit (then_of _ _ r.cached hit h, refl)
      | inr miss ↦
          let (fetched, e, made, net) = else_of _ _ r.cached miss h in
          let from =
            mark_cached-FromRdap (asked_rdap w) fetched s.net
              (fetched-FromRdap w s.net (ok fetched) e net) in
          subst (λ a. Answers w (a, s)) (sym (retimed-uncached r miss))
            (uncached-Answers w r s miss
              (subst (λ x. FromRdap (asked_rdap w) (ok x) s.net) (sym made) from))
    ]

    fetched-Answers :
        (w net : W) (answer : Result WhoisResponse) (s : Tiers L B W)
        → Uncached answer
        → FromRdap (asked_rdap w) answer net
        → Answers w (answer, record s { net = net })
    fetched-Answers w net (err e) s fresh from = from
    fetched-Answers w net (ok r) s fresh from = if_false _ _ r.cached fresh from

    direct-Answers : (s : Tiers L B W) → Answers s.net (direct services query ip query_time s)
    unfolding fetch_response
    direct-Answers s =
        fetched-Answers s.net _ _ s (packaged-Uncached _) (fetch_response-FromRdap s.net)

    through-Answers :
        (cache : Option (CacheService L B)) (others : Bool) (s : Tiers L B W)
        → Answers s.net (through services cache query ip query_time elapsed others s)
    through-Answers none others s = direct-Answers s
    through-Answers (some c) others s =
        let fetch_fn = fetch_response services query ip query_time in
        let (answer, s') = get_or_fetch c query fetch_fn others s in
        retimed-Answers s.net answer s' (get_or_fetch-Honest c query fetch_fn others s)

    -- A response marked as cached has cost no query and reports the time of this request. Any other
    -- answer has cost one query over RDAP and, exactly where that failed, one over WHOIS: the
    -- response has the result of the protocol that answered under the label of that protocol, names
    -- this query and reports the time of its fetch; it is an error exactly where both failed.
    pub lookup_internal-Answers :
        (cache : Option (CacheService L B)) (fresh others : Bool) (s : Tiers L B W)
        → Answers s.net (lookup_internal services cache query ip fresh query_time elapsed others s)
    unfolding lookup_internal
    lookup_internal-Answers cache fresh others s =
        if_rule (Answers s.net) fresh _ _ (λ _. direct-Answers s)
          (λ _. through-Answers cache others s)
