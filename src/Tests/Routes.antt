-- ===== src/Tests/Routes.antt =====
-- Requests to the server, and the client that it asks, run on small inputs.
use rust_whois.Prelude.{
  ℕ, ◌+◌, ◌≤◌, List, suc, ◌≡◌, refl, Bool, true, false, [], ◌∷◌, Option, none, some, inr,
}
use rust_whois.Text.{Str, codes, ascii_only, is_whitespace}
use rust_whois.Ip.{parse_ip}
use rust_whois.Error.{Result, ok, err, invalid_domain, to_string, timeout}
use rust_whois.Cache.{Tiers}
use rust_whois.Client.Build.{Node}
use rust_whois.Data.{WhoisResponse}
use rust_whois.Config.{default_config}
use rust_whois.Tld.{extract_tld}
use rust_whois.Client.Query.{new_query, domain}
use rust_whois.Client.Query.Dotted.{IsTld, extract_tld-new_query}
use rust_whois.Client.Api.{WhoisClient}
use rust_whois.Server.Handlers.{Server, error_label, note}
use rust_whois.Server.Routes.{
  Request, get_health, get_whois_path, get_debug_path, error_response, Vitals, handle, serve,
}
use rust_whois.Server.Handlers.Counted.{count, requests, hits, misses}
use rust_whois.Server.Routes.Totals.{hit_in, miss_in, total, handle_all, handle_all-Noted}
use rust_whois.Server.Routes.Masked.{Masked, serve-Masked}
use rust_whois.Server.Routes.Refused.{handle-refused}
use rust_whois.Server.Metrics.{holds}
use rust_whois.Text.{trim}
use rust_whois.Ip.{v4, is_private_or_special, show_ip}
use rust_whois.Ip.Validated
use rust_whois.Ip.Validated.{ValidatedIpAddress, refused}
use rust_whois.Server.Start.{Launch, Moment, start, app_state, asking}
use rust_whois.Server.Start.Private.{handle-private}
use rust_whois.Tests.{one_slot, response}
use rust_whois.Tests.Exchange.{unanswered, small_machine, new_node}
use rust_whois.Tests.Server.{counting_down, idle, answering}

abbrev vitals : Vitals Unit
vitals = record {
  version = codes "0.2.0";
  start_time = 0;
  clock = 5;
  render = λ h. codes "whois_requests_total 1";
  lock = holds none;
}

abbrev failing : Str → Bool → ℕ → Result WhoisResponse × ℕ
failing query fresh w = (err timeout, suc w)

abbrev any_name : Str → Option Str
any_name s = none

serve-Masked_example :
    Masked vitals
      (get_whois_path (codes "a.example") false)
      (serve ascii_only failing any_name vitals
        (get_whois_path (codes "a.example") false)
        none
        idle).0
serve-Masked_example =
    serve-Masked ascii_only failing any_name vitals (get_whois_path (codes "a.example") false) none
      idle

dotless :
    new_query ascii_only any_name (codes "localhost")
    ≡ err (invalid_domain (codes "Domain must contain at least one dot"))
unfolding new_query parse_ip is_whitespace
dotless = refl

handle-refused_example :
    handle ascii_only failing any_name vitals (get_whois_path (codes "localhost") true) idle ≡ (
      error_response
          (400, to_string (invalid_domain (codes "Domain must contain at least one dot"))),
      note idle (error_label (invalid_domain (codes "Domain must contain at least one dot")) ∷ []),
    )
handle-refused_example =
    handle-refused ascii_only failing any_name idle
      (invalid_domain (codes "Domain must contain at least one dot")) vitals
      (get_whois_path (codes "localhost") true) (codes "localhost") refl dotless

dotted :
    new_query ascii_only any_name (codes "www.Example.com.") ≡ ok (domain (codes "www.example.com"))
unfolding new_query parse_ip is_whitespace
dotted = refl

abbrev no_suffix : Str → Option (Option Str)
no_suffix s = none

extract_tld-new_query_example :
    (tld : Str) × (extract_tld no_suffix (codes "www.example.com") ≡ ok tld)
    × IsTld no_suffix (codes "www.example.com") tld
extract_tld-new_query_example =
    extract_tld-new_query ascii_only any_name no_suffix (codes "www.Example.com.")
      (codes "www.example.com") dotted (λ e. cc)

-- The client of a server that is started without Redis.
abbrev launch : Launch (Option WhoisResponse) Unit Unit
launch = record {
  redis_feature = true;
  redis_url = none;
  open_redis = λ url. err timeout;
  exporter = inr tt;
  handle_lock = holds none;
  local = some response;
  shared = tt;
}

abbrev client : WhoisClient (Option WhoisResponse) Unit ℕ
client = record {
  config = small_machine;
  cache =
      some (record { cache = one_slot; backend = none; positive_ttl = 1800; negative_ttl = 300 });
  kept = new_node;
}

abbrev started : Server (Tiers (Option WhoisResponse) Unit (Node ℕ)) counting_down
started = app_state unanswered (λ n. one_slot) (inr tt) launch counting_down client

is_started :
    start unanswered (λ n. one_slot) (inr tt) launch counting_down (ok small_machine) 0
    ≡ ok (client, started)
unfolding start default_config
is_started = refl

abbrev private_ip : ValidatedIpAddress
private_ip = record {
  addr = v4 (record { o0 = 10; o1 = 0; o2 = 0; o3 = 1 });
  normalized = codes "10.0.0.1";
}

valid : Validated.new (trim (codes " 10.0.0.1 ")) ≡ ok private_ip
unfolding Validated.new parse_ip show_ip is_whitespace trim
valid = refl

private : is_private_or_special private_ip.addr ≡ true
unfolding is_private_or_special
private = refl

abbrev at_seven : Tiers (Option WhoisResponse) Unit (Node ℕ) → Moment
at_seven s = record { query_time = 7; elapsed = 7; others = false }

handle-private_example :
    let (response, s') =
      handle ascii_only
        (asking unanswered any_name client at_seven)
        any_name
        vitals
        (get_debug_path (codes " 10.0.0.1 "))
        started in
    (response ≡ error_response (400, to_string (refused private_ip))) × (s'.world ≡ started.world)
handle-private_example =
    handle-private unanswered any_name client at_seven vitals (get_debug_path (codes " 10.0.0.1 "))
      (codes " 10.0.0.1 ") private_ip started refl refl valid private

abbrev sent : List Request
sent =
    get_whois_path (codes "a.example") false
    ∷ get_whois_path (codes "localhost") true
    ∷ get_health
    ∷ []

handle_all-Noted_example :
    let (responses, s') = handle_all ascii_only answering any_name vitals sent idle in
    (count hits s'.recorded ≡ 0 + total hit_in responses)
    × (count misses s'.recorded ≡ 0 + total miss_in responses)
    × (0 + total hit_in responses + total miss_in responses ≤ count requests s'.recorded)
    × (count requests s'.recorded ≤ 0 + 3)
unfolding count
handle_all-Noted_example = handle_all-Noted ascii_only answering any_name vitals sent idle

-- A client that is made without a cache, and tiers that it never uses.
abbrev uncached : WhoisClient (Option WhoisResponse) Unit ℕ
uncached = record { config = small_machine; cache = none; kept = new_node }

abbrev tiers : Tiers (Option WhoisResponse) Unit (Node ℕ)
tiers = record { local = some response; shared = tt; net = new_node }
