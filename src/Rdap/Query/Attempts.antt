-- ===== src/Rdap/Query/Attempts.antt =====
-- src/rdap.rs: the requests of a query, read off a log, and the size of its answer.
use rust_whois.Prelude.{
  ℕ, suc, ◌+◌, ◌≤◌, ◌≡◌, refl, sym, ◌∙◌, Bool, true, false, List, [], ◌∷◌, Option, none, some, ◌⊎◌,
  inl, inr, length, All, arith,
}
use rust_whois.Text.{Str, len}
use rust_whois.Error.{ok, err, internal}
use rust_whois.Data.{found}
use rust_whois.Retry.{Retry, Runs, last, done, again, again_on}
use rust_whois.Rdap.Query.{
  HttpResponse, Http, Answer, is_success, is_transient, max_retry_attempts, read_response, attempt,
  query_url, query_parsed, query_rdap_resource,
}

-- The responses so far, the last one first.
abbrev pub Log : Type 0
Log = List (Str ⊎ HttpResponse)

-- An HTTP client whose answers may depend on all earlier ones, with each answer put on the log.
abbrev pub logged :
    {Url : Type 0}
    → (Str → Str ⊎ Url)
    → (Url → Str → Str → Option Url)
    → (Log → Url → Str ⊎ HttpResponse)
    → (ℕ → Str)
    → Http Log
logged {Url} parse push reply show_status = record {
  Url = Url;
  parse = parse;
  push = push;
  send = λ url log. (reply log url, reply log url ∷ log);
  show_status = show_status;
}

abbrev pub breaks_off : Str ⊎ Str → Bool
breaks_off (inl e) = true
breaks_off (inr s) = false

-- A failure of the transport: no response, or one whose text breaks off.
abbrev pub IsTransportFailure : Str ⊎ HttpResponse → Type 0
IsTransportFailure (inl e) = Unit
IsTransportFailure (inr response) =
    (is_success response.status ≡ true) × (breaks_off response.text ≡ true)

module _ {Url : Type 0} (parse : Str → Str ⊎ Url) (push : Url → Str → Str → Option Url)
    (reply : Log → Url → Str ⊎ HttpResponse) (show_status : ℕ → Str) (max : ℕ)
    (resource_type : Str) where
  abbrev http : Http Log
  http = logged parse push reply show_status

  -- The answer is made of the last response, and each one before it was a failure of the
  -- transport; with no response at all the answer is an internal error.
  abbrev pub Accounts : Answer × Log → Type 0
  Accounts (answer, []) = (reason : Str) × (answer ≡ err (internal reason))
  Accounts (answer, outcome ∷ earlier) =
      (answer ≡ read_response http max resource_type outcome) × All IsTransportFailure earlier

  retried-IsTransportFailure :
      (outcome : Str ⊎ HttpResponse)
      → again_on is_transient (read_response http max resource_type outcome) ≡ true
      → IsTransportFailure outcome
  unfolding read_response is_transient
  retried-IsTransportFailure (inl e) h = tt
  retried-IsTransportFailure (inr response) h = ground arith

  Runs-Accounts :
      (url : Url) {n : ℕ} {log : Log} {out : Answer × Log}
      → Runs is_transient (attempt http max resource_type url) n log out
      → All IsTransportFailure log
      → Accounts out × (length out.1 ≤ length log + suc n)
  unfolding attempt
  Runs-Accounts url (last log) failures = ((refl, failures), omega arith)
  Runs-Accounts url (done log settled) failures = ((refl, failures), omega arith)
  Runs-Accounts url (again log failed rest) failures =
      let outcome = reply log url in
      let (accounts, bounded) =
        Runs-Accounts url rest (retried-IsTransportFailure outcome failed, failures) in
      (accounts, omega arith)

  -- A query makes at most four requests. Its answer is made of the last response, and each earlier
  -- one was a failure of the transport, so that no status is ever tried again: neither 404 nor
  -- 429 nor any other. Without a request the answer is an internal error.
  pub query_rdap_resource-Accounts :
      (r : Retry) (server query : Str)
      → let out = query_rdap_resource http max resource_type r server query [] in
        Accounts out × (length out.1 ≤ 4)
  unfolding query_rdap_resource
  query_rdap_resource-Accounts r server query = go (parse server)
    where
      with_url :
          (o : Option Url)
          → let out = query_url http max resource_type r o [] in Accounts out × (length out.1 ≤ 4)
      with_url none = ((_, refl), omega arith)
      with_url (some url) =
          Runs-Accounts url
            (r.retry-Runs is_transient max_retry_attempts (attempt http max resource_type url) [])
            tt

      go :
          (p : Str ⊎ Url)
          → let out = query_parsed http max resource_type r server query p [] in
            Accounts out × (length out.1 ≤ 4)
      go (inl e) = ((_, refl), omega arith)
      go (inr url) = with_url (push url resource_type query)

  read_response-len :
      (outcome : Str ⊎ HttpResponse) (raw_data : Str)
      → read_response http max resource_type outcome ≡ ok (raw_data, found)
      → len raw_data ≤ max
  unfolding read_response
  read_response-len (inl e) raw_data h = cc
  read_response-len (inr response) raw_data h = ground arith

  -- A record that a query finds is no longer than the limit.
  pub query_rdap_resource-len :
      (r : Retry) (server query raw_data : Str)
      → (query_rdap_resource http max resource_type r server query []).0 ≡ ok (raw_data, found)
      → len raw_data ≤ max
  query_rdap_resource-len r server query raw_data e =
      go (query_rdap_resource http max resource_type r server query [])
        (query_rdap_resource-Accounts r server query).0 e
    where
      go : (out : Answer × Log) → Accounts out → out.0 ≡ ok (raw_data, found) → len raw_data ≤ max
      go (answer, []) (reason, none_made) e' = cc
      go (answer, outcome ∷ earlier) (made, failures) e' =
          read_response-len outcome raw_data (sym made ∙ e')
