-- ===== src/Whois/Read/Limits.antt =====
-- src/whois.rs: what `read_whois_response` returns, and when.
use mathlib.Core.List.{append-nil, append_assoc}
use rust_whois.Prelude.{
  ℕ, ◌≤◌, ◌<◌, ◌≡◌, ◌⊎◌, refl, sym, ap, subst, ◌∙◌, true, List, [], ◌∷◌, ◌++◌, Option, none, some,
  length, arith, is_some,
}
use rust_whois.Text.{Str}
use rust_whois.Error.{Result, ok, err}
use rust_whois.Whois.Read.{
  timed_out, failed, bytes, Event, read_loop, converted, read_whois_response, total_timeout,
}

-- The bytes that arrive before the end of the stream.
abbrev pub received : List Event → List ℕ
received [] = []
received ((elapsed, timed_out) ∷ events) = []
received ((elapsed, failed e) ∷ events) = []
received ((elapsed, bytes []) ∷ events) = []
received ((elapsed, bytes (b ∷ bs)) ∷ events) = (b ∷ bs) ++ received events

-- Some round begins after the limit.
abbrev pub Overdue : ℕ → List Event → Type 0
Overdue limit [] = ⊥
Overdue limit ((elapsed, outcome) ∷ events) = (limit < elapsed) ⊎ Overdue limit events

read_loop-Limited :
    (max total : ℕ) (events : List Event) (response answer : List ℕ)
    → length response ≤ max
    → read_loop max total events response ≡ some (ok answer)
    → (answer ≡ response ++ received events) × (length answer ≤ max)
unfolding read_loop
read_loop-Limited max total [] response answer small e = cc
read_loop-Limited max total ((elapsed, timed_out) ∷ events) response answer small e = ground arith
read_loop-Limited max total ((elapsed, failed reason) ∷ events) response answer small e =
    ground arith
read_loop-Limited max total ((elapsed, bytes []) ∷ events) response answer small e =
    let same : response ≡ answer = ground arith in
    (sym same ∙ sym (append-nil response), subst (λ r. length r ≤ max) same small)
read_loop-Limited max total ((elapsed, bytes (b ∷ bs)) ∷ events) response answer small e =
    let more = response ++ (b ∷ bs) in
    let (fits, later) : (length more ≤ max) × (read_loop max total events more ≡ some (ok answer)) =
      ground arith in
    let (same, bounded) = read_loop-Limited max total events more answer fits later in
    (same ∙ append_assoc response (b ∷ bs) (received events), bounded)

read_loop-Overdue :
    (max total : ℕ) (events : List Event) (response : List ℕ)
    → Overdue total events
    → is_some (read_loop max total events response) ≡ true
unfolding read_loop
read_loop-Overdue max total [] response late = elim late [ ]
read_loop-Overdue max total ((elapsed, timed_out) ∷ events) response late = ground arith
read_loop-Overdue max total ((elapsed, failed e) ∷ events) response late = ground arith
read_loop-Overdue max total ((elapsed, bytes []) ∷ events) response late = ground arith
read_loop-Overdue max total ((elapsed, bytes (b ∷ bs)) ∷ events) response late =
    ground (arith, read_loop-Overdue max total events (response ++ (b ∷ bs)))

converted-ok :
    (from_utf8 : List ℕ → Option Str) (r : Option (Result (List ℕ))) (text : Str)
    → converted from_utf8 r ≡ some (ok text)
    → (answer : List ℕ) × (r ≡ some (ok answer)) × (from_utf8 answer ≡ some text)
converted-ok from_utf8 none text e = cc
converted-ok from_utf8 (some (err reason)) text e = cc
converted-ok from_utf8 (some (ok answer)) text e = (answer, refl, ground arith)

is_some-converted :
    (from_utf8 : List ℕ → Option Str) (r : Option (Result (List ℕ)))
    → is_some r ≡ true
    → is_some (converted from_utf8 r) ≡ true
is_some-converted from_utf8 none e = cc
is_some-converted from_utf8 (some (ok answer)) e = refl
is_some-converted from_utf8 (some (err reason)) e = refl

module _ (from_utf8 : List ℕ → Option Str) (seconds max : ℕ) (events : List Event) where
  -- A response that is read is the text of all bytes that arrived before the end of the stream,
  -- and these are no more than the limit.
  pub read_whois_response-received :
      (text : Str)
      → read_whois_response from_utf8 seconds max events ≡ some (ok text)
      → (from_utf8 (received events) ≡ some text) × (length (received events) ≤ max)
  unfolding read_whois_response
  read_whois_response-received text e =
      let (answer, read, decoded) = converted-ok from_utf8 _ text e in
      let (same, bounded) =
        read_loop-Limited max (total_timeout seconds) events [] answer (omega arith) read in
      (ap from_utf8 (sym same) ∙ decoded, subst (λ r. length r ≤ max) same bounded)

  -- Reading ends by the first round that begins more than twice the timeout after the start.
  pub read_whois_response-Overdue :
      Overdue (total_timeout seconds) events
      → is_some (read_whois_response from_utf8 seconds max events) ≡ true
  unfolding read_whois_response
  read_whois_response-Overdue late =
      is_some-converted from_utf8 _ (read_loop-Overdue max (total_timeout seconds) events [] late)
