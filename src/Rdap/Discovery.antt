-- ===== src/Rdap/Discovery.antt =====
-- src/rdap.rs: the bootstrap data and `find_rdap_server`. One lookup runs alone: what other tasks do
-- to the server cache meanwhile is left out.
pub mod Cached
pub mod Hits
pub mod Tasks
use rust_whois.Prelude.{
  ℕ, Bool, true, false, List, [], ◌∷◌, ◌++◌, Option, none, some, ◌⊎◌, inl, inr, if◌then◌else◌,
  is_some, or_else, not,
}
use rust_whois.Text.{Str, codes, str_eq, mem_str, split, last}
use rust_whois.Error.{WhoisError, http_error, internal, unsupported_tld, Result, ok, err}
use rust_whois.Whois.Servers.{server_of, insert}
use rust_whois.Rdap.Query.{HttpResponse, is_success}
use rust_whois.Rdap.Bootstrap.{
  Readings, Service, BootstrapState, Outcome, returns, panics, get_or_fetch_bootstrap,
}

pub record RdapBootstrapEntry : Type 0 where
  pub tlds : List Str
  pub servers : List Str

-- Its `services`; the other fields are never read.
abbrev pub RdapBootstrap : Type 0
RdapBootstrap = List RdapBootstrapEntry

abbrev pub first {ℓ} : {A : Type ℓ} → List A → Option A
first [] = none
first (x ∷ xs) = some x

-- The closure `lookup`: the first service that lists the candidate, and its first server.
unfoldable pub lookup_service : RdapBootstrap → Str → Option Str
unfolding mem_str
lookup_service [] candidate = none
lookup_service (service ∷ services) candidate =
    let later = lookup_service services candidate in
    if mem_str service.tlds candidate then first service.servers else later

-- `tld.rsplit('.').next()?` and what follows
abbrev by_last_label : RdapBootstrap → Str → Option Str → Option Str
by_last_label bootstrap tld none = none
by_last_label bootstrap tld (some last_label) =
    if str_eq last_label tld then none else lookup_service bootstrap last_label

-- The server of a top-level domain: by its full name, or else by its last label.
unfoldable pub resolve : RdapBootstrap → Str → Option Str
unfolding lookup_service str_eq
resolve bootstrap tld =
    or_else (lookup_service bootstrap tld) (by_last_label bootstrap tld (last (split tld b'.')))

abbrev decoded : Str ⊎ RdapBootstrap → Result RdapBootstrap
decoded (inl e) = err (http_error e)
decoded (inr bootstrap) = ok bootstrap

-- What is made of the response to the request for the bootstrap data. `json` is reqwest's, and
-- `show_status` the text that it prints.
unfoldable pub read_bootstrap :
    (ℕ → Str) → (HttpResponse → Str ⊎ RdapBootstrap) → Str ⊎ HttpResponse → Result RdapBootstrap
read_bootstrap show_status json (inl e) = err (http_error e)
read_bootstrap show_status json (inr response) =
    if not (is_success response.status)
    then err
        (internal (codes "Bootstrap fetch failed with status: " ++ show_status response.status))
    else decoded (json response)

module _ {W : Type 0} (send : W → (Str ⊎ HttpResponse) × W) where
  unfoldable pub fetch_bootstrap_data :
      (ℕ → Str) → (HttpResponse → Str ⊎ RdapBootstrap) → W → Result RdapBootstrap × W
  unfolding read_bootstrap
  fetch_bootstrap_data show_status json w =
      let (response, w') = send w in (read_bootstrap show_status json response, w')

-- A panic of the access is passed on.
abbrev pub discovered : Str → Outcome (Result RdapBootstrap) → Outcome (Option Str)
discovered tld panics = panics
discovered tld (returns (err e)) = returns none
discovered tld (returns (ok bootstrap)) = returns (resolve bootstrap tld)

abbrev pub remember :
    Str
    → Outcome (Option Str)
    → Service RdapBootstrap
    → Outcome (Result Str) × Service RdapBootstrap
remember tld panics s = (panics, s)
remember tld (returns none) s =
    (returns (err (unsupported_tld (codes "No RDAP server found for TLD: " ++ tld))), s)
remember tld (returns (some server)) s = (
  returns (ok server),
  record s {
    tld_servers =
        if is_some (server_of tld s.tld_servers)
        then s.tld_servers
        else insert tld server s.tld_servers;
  },
)

module _ {W : Type 0} (fetch : W → Result RdapBootstrap × W) (at : Readings) where
  unfoldable pub discover_rdap_server_bootstrap :
      Str → Service RdapBootstrap → W → (Outcome (Option Str) × Service RdapBootstrap) × W
  unfolding get_or_fetch_bootstrap resolve
  discover_rdap_server_bootstrap tld s w =
      let ((answer, s'), w') = get_or_fetch_bootstrap fetch at s w in
      ((discovered tld answer, s'), w')

  abbrev pub cached_or_discovered :
      Str
      → Option Str
      → Service RdapBootstrap
      → W
      → (Outcome (Result Str) × Service RdapBootstrap) × W
  cached_or_discovered tld (some server) s w = ((returns (ok server), s), w)
  cached_or_discovered tld none s w =
      let ((server, s'), w') = discover_rdap_server_bootstrap tld s w in
      (remember tld server s', w')

  unfoldable pub find_rdap_server :
      Str → Service RdapBootstrap → W → (Outcome (Result Str) × Service RdapBootstrap) × W
  unfolding discover_rdap_server_bootstrap server_of insert
  find_rdap_server tld s w = cached_or_discovered tld (server_of tld s.tld_servers) s w
