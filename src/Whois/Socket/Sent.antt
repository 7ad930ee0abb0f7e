-- ===== src/Whois/Socket/Sent.antt =====
-- src/whois.rs: `execute_whois_query` and the block of `referral_whois_query`, on sockets that keep
-- a log of what is sent.
use rust_whois.Prelude.{
  ℕ, suc, ◌+◌, ◌≤◌, ◌≡◌, refl, false, List, [], ◌∷◌, ◌++◌, Option, ◌⊎◌, inl, inr, All, if_rule, not,
  arith,
}
use rust_whois.Text.{Str, codes}
use rust_whois.Error.{Result, ok, err}
use rust_whois.Config.{Config}
use rust_whois.Ip.{is_private_or_special}
use rust_whois.Retry.{Retry, Runs, last, done, again}
use rust_whois.Whois.Read.{Event}
use rust_whois.Whois.Socket.{
  SocketAddr, Dialled, Sockets, is_transient, stream_of, public_addrs, whois_port,
  whois_retry_attempts, send_query, connect_to_whois_server, connect_public, at_resolved,
  connect_to_referral_server, ask_stream, answer_of, ask_server, execute_whois_query, ask_referral,
}

pub data Act : Type 0 where
  dials : Str → ℕ → Act
  dials_any : List SocketAddr → Act
  writes : Str → Act

-- The acts so far, the last one first.
abbrev pub Log : Type 0
Log = List Act

-- Sockets and a resolver whose answers may depend on all that was sent.
pub record Peer : Type 1 where
  pub Stream : Type 0
  pub resolves : Log → Str → ℕ → Str ⊎ List SocketAddr
  pub answers : Log → Dialled Stream
  pub takes : Log → Stream → Option Str
  pub gives : Log → Stream → ℕ → List Event

abbrev pub logged : Peer → Sockets Log
logged peer = record {
  Stream = peer.Stream;
  lookup_host = λ host port log. (peer.resolves log host port, log);
  connect = λ seconds host port log. (peer.answers log, dials host port ∷ log);
  connect_any = λ seconds addrs log. (peer.answers log, dials_any addrs ∷ log);
  write_all = λ stream text log. (peer.takes log stream, writes text ∷ log);
  reads = λ stream size log. (peer.gives log stream size, log);
}

-- The connections of a log.
unfoldable pub dialled : Log → ℕ
dialled [] = 0
dialled (dials host port ∷ log) = suc (dialled log)
dialled (dials_any addrs ∷ log) = suc (dialled log)
dialled (writes text ∷ log) = dialled log

-- The port of WHOIS on the server, and the query as one line.
abbrev pub Asks : (server query : Str) → Act → Type 0
Asks server query (dials host port) = (host ≡ server) × (port ≡ 43)
Asks server query (dials_any addrs) = ⊥
Asks server query (writes text) = text ≡ query ++ codes "\r\n"

abbrev IsPublic : SocketAddr → Type 0
IsPublic (ip, port) = is_private_or_special ip ≡ false

-- A connection to addresses that the test does not hit, one of them at least, and the query as one line.
abbrev pub AsksPublic : (query : Str) → Act → Type 0
AsksPublic query (dials host port) = ⊥
AsksPublic query (dials_any []) = ⊥
AsksPublic query (dials_any (addr ∷ addrs)) = All IsPublic (addr ∷ addrs)
AsksPublic query (writes text) = text ≡ query ++ codes "\r\n"

public_addrs-IsPublic : (addrs : List SocketAddr) → All IsPublic (public_addrs addrs)
unfolding public_addrs
public_addrs-IsPublic [] = tt
public_addrs-IsPublic ((ip, port) ∷ addrs) =
    let ih = public_addrs-IsPublic addrs in
    if_rule (All IsPublic) (not (is_private_or_special ip)) ((ip, port) ∷ public_addrs addrs)
      (public_addrs addrs) (λ public. (ground arith, ih)) (λ private. ih)

module _ (peer : Peer) (config : Config) (from_utf8 : List ℕ → Option Str) (query : Str) where
  abbrev sockets : Sockets Log
  sockets = logged peer

  -- A stream that is asked gets one line more, or nothing, and no connection is made.
  ask_stream-All :
      (P : Act → Type 0) (stream : Result (peer.Stream)) (log : Log)
      → P (writes (query ++ codes "\r\n"))
      → All P log
      → let log' = (ask_stream sockets config from_utf8 query stream log).1 in
        All P log' × (dialled log' ≡ dialled log)
  unfolding send_query dialled
  ask_stream-All P (err e) log line sent = (sent, refl)
  ask_stream-All P (ok stream) log line sent = go _
    where
      go :
          (written : Result {0} Unit)
          → let log' =
              (answer_of sockets config from_utf8 stream written
                (writes (query ++ codes "\r\n") ∷ log)).1 in
            All P log' × (dialled log' ≡ dialled log)
      go (err e) = ((line, sent), refl)
      go (ok done_) = ((line, sent), refl)

  ask_server-Asks :
      (server : Str) (log : Log)
      → All (Asks server query) log
      → let log' = (ask_server sockets config from_utf8 server query log).1 in
        All (Asks server query) log' × (dialled log' ≡ suc (dialled log))
  unfolding ask_server connect_to_whois_server dialled
  ask_server-Asks server log sent =
      ask_stream-All (Asks server query) (stream_of (peer.answers log))
        (dials server whois_port ∷ log) refl ((refl, refl), sent)

  Runs-Asks :
      (server : Str) {n : ℕ} {log : Log} {out : Result Str × Log}
      → Runs is_transient (ask_server sockets config from_utf8 server query) n log out
      → All (Asks server query) log
      → All (Asks server query) out.1 × (dialled out.1 ≤ dialled log + suc n)
  Runs-Asks server (last log) sent =
      let (sent', one) = ask_server-Asks server log sent in (sent', omega arith)
  Runs-Asks server (done log settled) sent =
      let (sent', one) = ask_server-Asks server log sent in (sent', omega arith)
  Runs-Asks server (again log failed rest) sent =
      let (sent', one) = ask_server-Asks server log sent in
      let (all_sent, bounded) = Runs-Asks server rest sent' in (all_sent, omega arith)

  -- A query of a WHOIS server makes at most four connections, every one of them to port 43 of that
  -- server, and all that it writes is the query as one line.
  pub execute_whois_query-Asks :
      (r : Retry) (server : Str)
      → let log = (execute_whois_query sockets config from_utf8 r server query []).1 in
        All (Asks server query) log × (dialled log ≤ 4)
  unfolding execute_whois_query dialled
  execute_whois_query-Asks r server =
      Runs-Asks server
        (r.retry-Runs is_transient whois_retry_attempts
          (ask_server sockets config from_utf8 server query) [])
        tt

  -- Whatever a referral server's name resolves to, the query of it makes at most one connection,
  -- and only to addresses that the test for private and special ones does not hit; all that it
  -- writes is the query as one line.
  pub ask_referral-AsksPublic :
      (server : Str)
      → let log = (ask_referral sockets config from_utf8 server query []).1 in
        All (AsksPublic query) log × (dialled log ≤ 1)
  unfolding ask_referral connect_to_referral_server dialled
  ask_referral-AsksPublic server = resolved (peer.resolves [] server whois_port)
    where
      public :
          (addrs : List SocketAddr)
          → All IsPublic addrs
          → let (stream, log) = connect_public sockets config from_utf8 server addrs [] in
            let log' = (ask_stream sockets config from_utf8 query stream log).1 in
            All (AsksPublic query) log' × (dialled log' ≤ 1)
      public [] vetted = (tt, omega arith)
      public (addr ∷ addrs) vetted =
          let (sent, one) =
            ask_stream-All (AsksPublic query) (stream_of (peer.answers []))
              (dials_any (addr ∷ addrs) ∷ []) refl (vetted, tt) in
          (sent, omega arith)

      resolved :
          (addrs : Str ⊎ List SocketAddr)
          → let (stream, log) = at_resolved sockets config from_utf8 server addrs [] in
            let log' = (ask_stream sockets config from_utf8 query stream log).1 in
            All (AsksPublic query) log' × (dialled log' ≤ 1)
      resolved (inl e) = (tt, omega arith)
      resolved (inr addrs) = public (public_addrs addrs) (public_addrs-IsPublic addrs)
