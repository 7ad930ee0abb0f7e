-- ===== src/Whois/Socket.antt =====
-- src/whois.rs: the queries on sockets, from `test_whois_server` to `send_query`. The sockets, the
-- resolver and the timeouts of the crate tokio are parameters, and the semaphores, which nothing
-- closes, are left out.
pub mod Sent
use rust_whois.Prelude.{
  ℕ, min, Bool, true, false, ◌&&◌, List, [], ◌∷◌, ◌++◌, Option, none, some, ◌⊎◌, inl, inr,
  if◌then◌else◌, not,
}
use rust_whois.Text.{Str, codes}
use rust_whois.Error.{WhoisError, timeout, io_error, internal, Result, ok, err}
use rust_whois.Config.{Config}
use rust_whois.Ip.{IpAddr, is_private_or_special}
use rust_whois.Retry.{Retry}
use rust_whois.Whois.Read.{Event, read_whois_response}
use rust_whois.Whois.Registry.{Network}

-- `WHOIS_PORT`
abbrev pub whois_port : ℕ
whois_port = 43

-- `MAX_DISCOVERY_TIMEOUT_SECS`
abbrev pub max_discovery_timeout_secs : ℕ
max_discovery_timeout_secs = 10

-- `MAX_RETRY_ATTEMPTS`
abbrev pub whois_retry_attempts : ℕ
whois_retry_attempts = 3

-- `REFERRAL_TIMEOUT_SECS`
abbrev pub referral_timeout_secs : ℕ
referral_timeout_secs = 10

abbrev pub SocketAddr : Type 0
SocketAddr = IpAddr × ℕ

-- What a connection attempt with a timeout gives.
pub data Dialled (Stream : Type 0) : Type 0 where
  unanswered : Dialled Stream
  refused : Str → Dialled Stream
  connected : Stream → Dialled Stream

-- What tokio gives. An error of the system is its text.
pub record Sockets (W : Type 0) : Type 1 where
  pub Stream : Type 0
  pub lookup_host : Str → ℕ → W → (Str ⊎ List SocketAddr) × W
  pub connect : (seconds : ℕ) → Str → ℕ → W → Dialled Stream × W
  pub connect_any : (seconds : ℕ) → List SocketAddr → W → Dialled Stream × W
  pub write_all : Stream → Str → W → Option Str × W
  -- one read with a buffer of the given size after another, each with a timeout
  pub reads : Stream → (size : ℕ) → W → List Event × W

-- The runs of an operation under a timeout: it ends in time, or it is dropped at some point.
pub data Timed {A W : Type 0} (op : W → A × W) (w : W) : Option A × W → Type 0 where
  in_time : Timed op w (some (op w).0, (op w).1)
  dropped : (w' : W) → Timed op w (none, w')

-- `tokio::time::timeout`
pub record Timeout (W : Type 0) : Type 1 where
  pub within : {A : Type 0} → (seconds : ℕ) → (W → A × W) → W → Option A × W
  pub within-Timed :
      {A : Type 0} (seconds : ℕ) (op : W → A × W) (w : W) → Timed op w (within seconds op w)

-- The test of `.when(..)`
unfoldable pub is_transient : WhoisError → Bool
is_transient timeout = true
is_transient (io_error e) = true
is_transient _ = false

abbrev pub stream_of : {Stream : Type 0} → Dialled Stream → Result Stream
stream_of unanswered = err timeout
stream_of (refused e) = err (io_error e)
stream_of (connected stream) = ok stream

abbrev is_connected : {Stream : Type 0} → Dialled Stream → Bool
is_connected (connected stream) = true
is_connected _ = false

-- `.filter(|addr| !is_private_or_special(&addr.ip())).collect()`
unfoldable pub public_addrs : List SocketAddr → List SocketAddr
unfolding is_private_or_special
public_addrs [] = []
public_addrs ((ip, port) ∷ addrs) =
    if not (is_private_or_special ip) then (ip, port) ∷ public_addrs addrs else public_addrs addrs

abbrev written : Option Str → Result {0} Unit
written none = ok tt
written (some e) = err (io_error e)

-- Once the reads listed are over, the time is up.
abbrev pub settled : Option (Result Str) → Result Str
settled none = err timeout
settled (some answer) = answer

module _ {W : Type 0} (sockets : Sockets W) (config : Config)
    (from_utf8 : List ℕ → Option Str) where
  open sockets use {Stream, lookup_host, connect, connect_any, write_all, reads}

  unfoldable pub send_query : Stream → Str → W → Result {0} Unit × W
  send_query stream query w =
      let (failure, w') = write_all stream (query ++ codes "\r\n") w in (written failure, w')

  unfoldable pub connect_to_whois_server : Str → W → Result Stream × W
  connect_to_whois_server server w =
      let (dialled, w') = connect config.whois_timeout_seconds server whois_port w in
      (stream_of dialled, w')

  abbrev pub connect_public : Str → List SocketAddr → W → Result Stream × W
  connect_public server [] w = (
    err (
        internal
          (codes "Referral server " ++ server ++ codes " resolves to private address space")),
    w,
  )
  connect_public server (addr ∷ addrs) w =
      let (dialled, w') = connect_any config.whois_timeout_seconds (addr ∷ addrs) w in
      (stream_of dialled, w')

  abbrev pub at_resolved : Str → Str ⊎ List SocketAddr → W → Result Stream × W
  at_resolved server (inl e) w = (err (io_error e), w)
  at_resolved server (inr addrs) w = connect_public server (public_addrs addrs) w

  unfoldable pub connect_to_referral_server : Str → W → Result Stream × W
  unfolding public_addrs
  connect_to_referral_server server w =
      let (resolved, w') = lookup_host server whois_port w in at_resolved server resolved w'

  abbrev pub answer_of : Stream → Result {0} Unit → W → Result Str × W
  answer_of stream (err e) w = (err e, w)
  answer_of stream (ok done) w =
      let (events, w') = reads stream config.buffer_size w in
      (
        settled (
            read_whois_response from_utf8 config.whois_timeout_seconds config.max_response_size
              events),
        w',
      )

  abbrev pub ask_stream : Str → Result Stream → W → Result Str × W
  ask_stream query (err e) w = (err e, w)
  ask_stream query (ok stream) w =
      let (sent, w') = send_query stream query w in answer_of stream sent w'

  -- The closure that is retried.
  unfoldable pub ask_server : (server query : Str) → W → Result Str × W
  unfolding connect_to_whois_server send_query read_whois_response
  ask_server server query w =
      let (stream, w') = connect_to_whois_server server w in ask_stream query stream w'

  unfoldable pub execute_whois_query : Retry → (server query : Str) → W → Result Str × W
  unfolding ask_server is_transient
  execute_whois_query r server query w =
      r.retry is_transient whois_retry_attempts (ask_server server query) w

  -- The block under the time budget.
  unfoldable pub ask_referral : (server query : Str) → W → Result Str × W
  unfolding connect_to_referral_server send_query read_whois_response
  ask_referral server query w =
      let (stream, w') = connect_to_referral_server server w in ask_stream query stream w'

  abbrev pub in_budget : Option (Result Str) → Result Str
  in_budget none = err timeout
  in_budget (some answer) = answer

  unfoldable pub referral_whois_query : Timeout W → (server query : Str) → W → Result Str × W
  unfolding ask_referral
  referral_whois_query t server query w =
      let (answer, w') =
        t.within (min config.whois_timeout_seconds referral_timeout_secs)
          (ask_referral server query) w in
      (in_budget answer, w')

  unfoldable pub test_whois_server : Str → W → Bool × W
  test_whois_server server w =
      let (dialled, w') =
        connect (min config.discovery_timeout_seconds max_discovery_timeout_secs) server whois_port
          w in
      (is_connected dialled, w')

  -- The queries that the lookups make.
  abbrev pub network : Retry → Timeout W → Network W
  network r t = record {
    raw_whois_query = execute_whois_query r;
    discovery_whois_query = execute_whois_query r;
    referral_whois_query = referral_whois_query t;
    test_whois_server = test_whois_server;
  }
