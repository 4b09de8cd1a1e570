-- ===== src/Proxy/Router/Reloads.antt =====
-- internal/proxy/router.go: Reload, and the director and the response of the reverse proxy.
-- What `net/url` parses is a parameter. A runtime without a pool serves files.
use orxies.Prelude.{
  ℕ, Bool, ◌||◌, not, List, [], ◌∷◌, ◌++◌, Option, none, some, if◌then◌else◌, length, Text,
  text_key, text_eq, codes, is_empty, insert,
}
use orxies.Config.{Site, RateLimitConfig, all_domains}
use orxies.Security.{HeaderMap, merge_edge_headers, set_all}
use orxies.Proxy.Limiter.{Limiter, new_limiter, with_global, with_max_in_flight}
use orxies.Proxy.Pool.{Url, Pool, new_pool, next_upstream}
use orxies.Proxy.Request.{Request, scheme_of, client_ip, single_join}
use orxies.Proxy.Router.{Router, SiteRuntime}

-- The limiter of a site, `none` for Go's nil.
unfoldable pub limiter_of : RateLimitConfig → ℕ → Option Limiter
limiter_of r now =
    if r.enabled
    then with_max_in_flight
        (with_global (new_limiter r.rps r.burst now) r.global_rps r.global_burst now)
        r.max_in_flight
    else none

abbrev pub runtime_with : Site → ℕ → Option Pool → SiteRuntime
runtime_with s now pool = record {
  site = s;
  pool = pool;
  limiter = limiter_of s.rate_limit now;
  headers = merge_edge_headers s.custom_headers;
}

-- Each of the domains leads to one and the same runtime.
unfoldable pub route : List Text → ℕ → List (Text × ℕ) → List (Text × ℕ)
route [] h m = m
route (d ∷ ds) h m = route ds h (insert d h m)

pub record Reloading : Type 0 where
  pub heap : List SiteRuntime
  pub next : List (Text × ℕ)

abbrev pub add_runtime : Site → Option SiteRuntime → Reloading → Reloading
add_runtime s none st = st
add_runtime s (some rt) st = record {
  heap = st.heap ++ (rt ∷ []);
  next = route (all_domains s) (length st.heap) st.next;
}

module _ (parse_url : Text → Option Url) where
  -- The runtime of one site, `none` where the site is off or its upstreams do not parse.
  unfoldable pub build_runtime : Site → ℕ → Option SiteRuntime
  build_runtime s now =
      if not s.enabled
      then none
      else if not (is_empty s.root)
      then some (runtime_with s now none)
      else elim (new_pool parse_url s.upstreams) [
        | none ↦ none
        | some p ↦ some (runtime_with s now (some p))
      ]

  unfoldable pub reload_sites : List Site → ℕ → Reloading → Reloading
  reload_sites [] now st = st
  reload_sites (s ∷ ss) now st = reload_sites ss now (add_runtime s (build_runtime s now) st)

  unfoldable pub reload : Router → List Site → ℕ → Router
  unfolding reload_sites
  reload r sites now =
      let st = reload_sites sites now (record { heap = r.heap; next = [] }) in
      record r { heap = st.heap; runtimes = st.next }

-- What the director makes of a request.
pub record Outgoing : Type 0 where
  pub url : Url
  pub x_forwarded_host : Text
  pub x_forwarded_proto : Text
  pub x_real_ip : Text

abbrev joined_path : Url → Text → Text
joined_path target path =
    if is_empty target.path || text_eq target.path (codes "/")
    then path
    else single_join target.path path

abbrev directed : (Text → Option Text) → Bool → Request → Option Url → Option Outgoing
directed split_host trust req none = none
directed split_host trust req (some target) = some (record {
  url = record target { path = joined_path target req.path };
  x_forwarded_host = req.host;
  x_forwarded_proto = scheme_of req;
  x_real_ip = client_ip split_host trust req;
})

-- `none` where the pool is empty, and the request is left as it is.
unfoldable pub director : (Text → Option Text) → Bool → Pool → Request → Pool × Option Outgoing
unfolding next_upstream
director split_host trust p req =
    let (p', target) = next_upstream p in (p', directed split_host trust req target)

abbrev pub modify_response : SiteRuntime → HeaderMap → HeaderMap
modify_response rt resp = set_all rt.headers resp
