-- ===== src/Whois/Read.antt =====
-- src/whois.rs: `read_whois_response`. What the socket and the clock do is a list of events, one
-- for each round of the loop. `String::from_utf8` is a parameter.
pub mod Limits
use rust_whois.Prelude.{
  ℕ, ◌*◌, Bool, List, [], ◌∷◌, ◌++◌, Option, none, some, if◌then◌else◌, ltb, length,
}
use rust_whois.Text.{Str}
use rust_whois.Error.{
  WhoisError, timeout, io_error, response_too_large, invalid_utf8, Result, ok, err,
}

-- What a timed `read` gives: nothing in time, an error, or bytes, none of them at the end.
pub data ReadOutcome : Type 0 where
  timed_out : ReadOutcome
  failed : Str → ReadOutcome
  bytes : List ℕ → ReadOutcome

-- The time since `read_start` when the round begins, in nanoseconds, and what the read gives.
abbrev pub Event : Type 0
Event = ℕ × ReadOutcome

-- `TOTAL_TIMEOUT_MULTIPLIER`
abbrev pub total_timeout_multiplier : ℕ
total_timeout_multiplier = 2

-- `Duration::from_secs(whois_timeout_seconds * TOTAL_TIMEOUT_MULTIPLIER)`
abbrev pub total_timeout : ℕ → ℕ
total_timeout whois_timeout_seconds = whois_timeout_seconds * total_timeout_multiplier * 1000000000

-- The loop; `none` while the events go on.
unfoldable pub read_loop :
    (max_response_size limit : ℕ) → List Event → List ℕ → Option (Result (List ℕ))
read_loop max_response_size limit [] response = none
read_loop max_response_size limit ((elapsed, outcome) ∷ events) response =
    if ltb limit elapsed then some (err timeout) else elim outcome [
      | timed_out ↦ some (err timeout)
      | failed e ↦ some (err (io_error e))
      | bytes chunk ↦ elim chunk [
        | [] ↦ some (ok response)
        | b ∷ bs ↦
            let more = response ++ (b ∷ bs) in
            let rest = read_loop max_response_size limit events more in
            if ltb max_response_size (length more) then some (err response_too_large) else rest
      ]
    ]

abbrev decoded : Option Str → Result Str
decoded none = err invalid_utf8
decoded (some s) = ok s

abbrev pub converted : (List ℕ → Option Str) → Option (Result (List ℕ)) → Option (Result Str)
converted from_utf8 none = none
converted from_utf8 (some (err e)) = some (err e)
converted from_utf8 (some (ok response)) = some (decoded (from_utf8 response))

unfoldable pub read_whois_response :
    (List ℕ → Option Str)
    → (whois_timeout_seconds max_response_size : ℕ) → List Event
    → Option (Result Str)
unfolding read_loop
read_whois_response from_utf8 whois_timeout_seconds max_response_size events =
    converted from_utf8
      (read_loop max_response_size (total_timeout whois_timeout_seconds) events [])
