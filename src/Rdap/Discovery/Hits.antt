-- ===== src/Rdap/Discovery/Hits.antt =====
-- src/rdap.rs: lookups of top-level domains that are cached.
use rust_whois.Prelude.{◌≡◌, refl, List, [], ◌∷◌, some, map}
use rust_whois.Text.{Str}
use rust_whois.Error.{Result, ok}
use rust_whois.Whois.Servers.{server_of}
use rust_whois.Rdap.Bootstrap.{Readings, Service, Outcome, returns}
use rust_whois.Rdap.Discovery.{RdapBootstrap, find_rdap_server}

-- A lookup: the clock, the top-level domain, and the server that the cache has for it.
pub record Hit (s : Service RdapBootstrap) : Type 0 where
  pub at : Readings
  pub tld : Str
  pub server : Str
  pub cached : server_of tld s.tld_servers ≡ some server

module _ {W : Type 0} (fetch : W → Result RdapBootstrap × W) where
  -- One lookup after another.
  unfoldable pub find_all :
      List (Readings × Str)
      → Service RdapBootstrap
      → W
      → (List (Outcome (Result Str)) × Service RdapBootstrap) × W
  unfolding find_rdap_server
  find_all [] s w = (([], s), w)
  find_all ((at, tld) ∷ queries) s w =
      let ((answer, s'), w') = find_rdap_server fetch at tld s w in
      let ((answers, s''), w'') = find_all queries s' w' in ((answer ∷ answers, s''), w'')

  -- As long as only top-level domains that are cached are looked up, the bootstrap data is never
  -- fetched, however old it is by the clock: every answer is the cached server, and the service and
  -- the network stay as they are.
  pub find_all-hits :
      (s : Service RdapBootstrap) (w : W) (hits : List (Hit s))
      → find_all (map (λ (h : Hit s). (h.at, h.tld)) hits) s w
        ≡ ((map (λ (h : Hit s). returns (ok h.server)) hits, s), w)
  unfolding find_all find_rdap_server
  find_all-hits s w [] = refl
  find_all-hits s w (h ∷ hits) = rw (h.cached, find_all-hits s w hits) refl
