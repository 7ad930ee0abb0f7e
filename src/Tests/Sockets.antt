-- ===== src/Tests/Sockets.antt =====
-- Queries on sockets, the pool of buffers and the shared cache, run on small inputs.
use rust_whois.Prelude.{
  ℕ, ◌≤◌, ◌≡◌, refl, true, false, List, [], ◌∷◌, ◌++◌, Option, none, some, inr, if◌then◌else◌,
  length, All, arith,
}
use rust_whois.Text.{Str, codes, str_eq}
use rust_whois.Config.{Config, default_config}
use rust_whois.Ip.{v4}
use rust_whois.Whois.Read.{bytes}
use rust_whois.Whois.Socket.{SocketAddr, connected, refused, execute_whois_query, ask_referral}
use rust_whois.Whois.Socket.Sent
use rust_whois.Whois.Socket.Sent.{
  Peer, Asks, AsksPublic, dialled, execute_whois_query-Asks, ask_referral-AsksPublic,
}
use rust_whois.BufferPool.{Buffer, ArrayQueue}
use rust_whois.BufferPool.Sized.{
  Bounded, in_front, Op, takes, gives_back, HasSize, Pooled, run, run-HasSize,
}
use rust_whois.Cache.Redis.{Redis, Json, RedisCache, load, store}
use rust_whois.Cache.Redis.View.{Reachable, load-store}
use rust_whois.Tests.{response}
use rust_whois.Tests.Looping.{retry_loop}

abbrev private_addr : SocketAddr
private_addr = (v4 (record { o0 = 10; o1 = 0; o2 = 0; o3 = 1 }), 43)

abbrev public_addr : SocketAddr
public_addr = (v4 (record { o0 = 8; o1 = 8; o2 = 8; o3 = 8 }), 43)

-- Refuses the first connection, and answers each later one with a line.
abbrev busy : Peer
busy = record {
  Stream = Unit {0};
  resolves = λ log host port. inr (private_addr ∷ public_addr ∷ []);
  answers = λ log. elim log [ [] ↦ refused (codes "busy") | act ∷ acts ↦ connected tt ];
  takes = λ log stream. none;
  gives = λ log stream size. (0, bytes (codes "ok")) ∷ (1, bytes []) ∷ [];
}

abbrev machine : Config
machine = default_config 3000 2147483648 2147483 2 false

abbrev ascii : List ℕ → Option Str
ascii s = some s

execute_whois_query-Asks_example :
    let log =
      (execute_whois_query
        (Sent.logged busy)
        machine
        ascii
        retry_loop
        (codes "whois.example")
        (codes "a.example")
        []).1 in
    All (Asks (codes "whois.example") (codes "a.example")) log × (dialled log ≤ 4)
execute_whois_query-Asks_example =
    execute_whois_query-Asks busy machine ascii (codes "a.example") retry_loop
      (codes "whois.example")

ask_referral-AsksPublic_example :
    let log =
      (ask_referral
        (Sent.logged busy)
        machine
        ascii
        (codes "whois.example")
        (codes "a.example")
        []).1 in
    All (AsksPublic (codes "a.example")) log × (dialled log ≤ 1)
ask_referral-AsksPublic_example =
    ask_referral-AsksPublic busy machine ascii (codes "a.example") (codes "whois.example")

-- A queue with one place.
abbrev single : ArrayQueue
single = record {
  Queue = Option Buffer;
  pop = λ q. (q, none);
  push = λ b q. elim q [ none ↦ (true, some b) | some old ↦ (false, some old) ];
}

abbrev single_elements : Option Buffer → List Buffer
single_elements q = in_front q []

single-push :
    (b : Buffer) (q : Option Buffer)
    → let (fits, q') = single.push b q in
      single_elements q' ≡ (if fits then single_elements q ++ (b ∷ []) else single_elements q)
single-push b none = refl
single-push b (some old) = refl

single-length : (q : Option Buffer) → length (single_elements q) ≤ 1
single-length none = omega arith
single-length (some b) = omega arith

abbrev single-Bounded : Bounded single 1
single-Bounded = record {
  elements = single_elements;
  pop-elements = λ q. refl;
  push-elements = single-push;
  length-elements = single-length;
}

-- One that is given back with too many bytes.
abbrev grown : Buffer
grown = record { capacity = 4; bytes = 7 ∷ 7 ∷ 7 ∷ [] }

abbrev uses : List Op
uses = takes ∷ gives_back grown ∷ takes ∷ []

run-HasSize_example :
    let (taken, q') = run single 2 uses none in
    All (HasSize 2) taken × All (Pooled 2) (single_elements q') × (length (single_elements q') ≤ 1)
run-HasSize_example =
    run-HasSize single 2 1 single-Bounded uses none (tt, (omega arith, (tt, tt))) tt

abbrev Store : Type 0
Store = Str → Option Str

-- A server that never fails, and forgets nothing.
abbrev in_memory : Redis Store
in_memory = record {
  Client = Unit {0};
  Connection = Unit {0};
  open_url = λ url. inr tt;
  get_connection_manager = λ client w. (inr tt, w);
  get = λ c key w. (inr (w key), w);
  set_ex =
      λ c key text seconds w. (inr tt, λ other. if str_eq key other then some text else w other);
}

in_memory-Reachable : Reachable in_memory (λ w. w)
in_memory-Reachable = record {
  get_connection_manager-view = λ client w. (tt, w, refl, refl);
  get-view = λ c key w. (w, refl, refl);
  set_ex-view = λ c key text seconds w positive. (_, refl, refl);
}

abbrev one_text : Json
one_text = record { to_string = λ r. inr (codes "{}"); from_str = λ s. inr response }

abbrev shared_cache : RedisCache in_memory
shared_cache = record { client = tt; key_prefix = codes "whois:" }

abbrev nothing : Store
nothing key = none

load-store_example :
    (load in_memory one_text shared_cache
      (codes "b.example")
      (store in_memory one_text shared_cache (codes "a.example") response 0 (none, nothing)).1).0
    ≡ (if str_eq (codes "a.example") (codes "b.example")
        then inr (some response)
        else (load in_memory one_text shared_cache (codes "b.example") (none, nothing)).0)
load-store_example =
    load-store in_memory (λ w. w) in_memory-Reachable one_text shared_cache (codes "a.example")
      (codes "b.example") (codes "{}") 0 response (none, nothing) refl refl
