-- ===== src/Whois/Follow/Log.antt =====
-- src/whois.rs: what `follow_referrals` asks of the network, read off a log.
use rust_whois.Prelude.{
  ℕ, zero, suc, ◌≤◌, ◌+◌, ◌≡◌, refl, ap, ◌⊎◌, inl, inr, false, List, [], ◌∷◌, ◌++◌, map, Option,
  none, some, length, All, if_rule, if◌then◌else◌, arith,
}
use rust_whois.Text.{Str, CaseMap, mem_str}
use rust_whois.Error.{Result, ok, err}
use rust_whois.Whois.Referral.{extract_whois_server}
use rust_whois.Whois.Referral.Host.{IsHost, extract_whois_server-IsHost}
use rust_whois.Whois.Follow.{follow, follow_referrals}

-- The queries so far, the last one first: the server and what it answered.
abbrev pub Log : Type 0
Log = List (Str × Result Str)

-- A network whose answer may depend on everything asked before, with each query put on the log.
abbrev pub logged : (Log → Str → Str → Result Str) → Str → Str → Log → Result Str × Log
logged reply server query log = (reply log server query, (server, reply log server query) ∷ log)

abbrev pub asked : Log → List Str
asked log = map (λ (server, answer). server) log

abbrev pub Distinct : List Str → Type 0
Distinct [] = Unit
Distinct (s ∷ ss) = (mem_str ss s ≡ false) × Distinct ss

abbrev pub Answered : Log → Str × Str → Type 0
Answered log (server, text) =
    (before : Log) × (after : Log) × (log ≡ before ++ ((server, ok text) ∷ after))

abbrev pub Source : (server text : Str) → Log → Str × Str → Type 0
Source server text log answer = (answer ≡ (server, text)) ⊎ Answered log answer

-- No server is asked twice, nor the initial one at all; at most `max` are asked, each a bare host
-- name; and the result is the initial response or one that was received, with its server.
abbrev pub Bounded : (max : ℕ) (initial_server initial_text : Str) → (Str × Str) × Log → Type 0
Bounded max server text (answer, log) =
    Distinct (asked log ++ (server ∷ []))
    × (length log ≤ max)
    × All IsHost (asked log)
    × Source server text log answer

module _ (reply : Log → Str → Str → Result Str) (m : CaseMap)
    (domain initial_server initial_text : Str) (max : ℕ) where
  abbrev Good : (Str × Str) × Log → Type 0
  Good = Bounded max initial_server initial_text

  follow-Bounded :
      (left : ℕ) (server text : Str) (log : Log)
      → length log + left ≤ max
      → Good ((server, text), log)
      → Good
          (follow (logged reply) m domain left (asked log ++ (initial_server ∷ [])) server text log)
  unfolding follow
  follow-Bounded zero server text log fuel good = good
  follow-Bounded (suc left) server text log fuel good =
      go (extract_whois_server m text) (λ r e. extract_whois_server-IsHost m text r e)
        (λ r t log'. follow-Bounded left r t log')
    where
      visited : List Str
      visited = asked log ++ (initial_server ∷ [])

      answered :
          (referral : Str) (a : Result Str)
          → IsHost referral
          → mem_str visited referral ≡ false
          → ((r t : Str) (log' : Log)
              → length log' + left ≤ max
              → Good ((r, t), log')
              → Good (
                  follow
                    (logged reply)
                    m
                    domain
                    left
                    (asked log' ++ (initial_server ∷ []))
                    r
                    t
                    log'))
          → Good (elim a as (λ _. (Str × Str) × Log) [
            | ok new_text ↦
                follow
                  (logged reply)
                  m
                  domain
                  left
                  (referral ∷ visited)
                  referral
                  new_text
                  ((referral, a) ∷ log)
            | err e ↦ ((server, text), (referral, a) ∷ log)
          ])
      answered referral (ok new_text) host new ih =
          let (distinct, bounded, hosts, source) = good in
          ih referral new_text ((referral, ok new_text) ∷ log) (omega arith)
            ((new, distinct), omega arith, (host, hosts), inr ([], log, refl))
      answered referral (err e) host new ih =
          let (distinct, bounded, hosts, source) = good in
          ((new, distinct), omega arith, (host, hosts), kept source)
        where
          kept :
              Source initial_server initial_text log (server, text)
              → Source initial_server initial_text ((referral, err e) ∷ log) (server, text)
          kept (inl same) = inl same
          kept (inr (before, after, here)) =
              inr ((referral, err e) ∷ before, after, ap (λ l. (referral, err e) ∷ l) here)

      go :
          (o : Option Str)
          → ((r : Str) → o ≡ some r → IsHost r)
          → ((r t : Str) (log' : Log)
              → length log' + left ≤ max
              → Good ((r, t), log')
              → Good (
                  follow
                    (logged reply)
                    m
                    domain
                    left
                    (asked log' ++ (initial_server ∷ []))
                    r
                    t
                    log'))
          → Good (elim o [
            | none ↦ ((server, text), log)
            | some referral ↦
                if mem_str visited referral
                then ((server, text), log)
                else let (answer, w') = logged reply referral domain log in
                  elim answer [
                    | ok new_text ↦
                        follow
                          (logged reply)
                          m
                          domain
                          left
                          (referral ∷ visited)
                          referral
                          new_text
                          w'
                    | err e ↦ ((server, text), w')
                  ]
          ])
      go none host ih = good
      go (some referral) host ih =
          if_rule Good (mem_str visited referral) ((server, text), log) _ (λ _. good)
            (λ new. answered referral (reply log referral domain) (host referral refl) new ih)

-- Whatever the network answers, in any number of rounds: no server is asked twice nor the initial
-- one again, at most `max` are asked, all of them bare host names, and the result is the initial
-- server with its response or a server that was asked with what it answered.
pub follow_referrals-Bounded :
    (reply : Log → Str → Str → Result Str) (m : CaseMap) (domain initial_server initial_text : Str)
    (max : ℕ)
    → Bounded max initial_server initial_text
        (follow_referrals (logged reply) m domain max initial_server initial_text [])
unfolding follow_referrals mem_str
follow_referrals-Bounded reply m domain initial_server initial_text max =
    follow-Bounded reply m domain initial_server initial_text max max initial_server initial_text []
      (omega arith) ((refl, tt), omega arith, tt, inl refl)
