-- ===== src/Proxy/Router.antt =====
-- internal/proxy/router.go: from a request to the site that serves it, and the reload of the sites.
-- The runtimes of the sites live in `heap`, and `runtimes` maps a domain to the place of one: the
-- aliases of a site share one runtime, and a request keeps the place that it was given across a
-- reload. `ServeHTTP` is cut where it hands the request on: `begin_request` ends there and
-- `finish_request` takes up when the handler returns. What `net` and `net/url` parse are parameters.
-- The patterns match ASCII letters of either case.
pub mod Requests
pub mod Slots
pub mod Caps
pub mod Returns
pub mod Reloads
pub mod Routes
mod Tests
use orxies.Prelude.{
  ℕ, ◌+◌, Bool, true, false, ◌&&◌, ◌||◌, not, List, [], ◌∷◌, ◌++◌, Option, none, some, ◌==◌, leb,
  if◌then◌else◌, length, get_elem?, set, Text, text_key, text_eq, codes, is_empty, to_lower,
  has_prefix, contains, cut, trim_space, take, lookup, insert,
}
use orxies.Config.{Site}
use orxies.Config.Index.{Store, lookup_host}
use orxies.Metrics.{Sample, Registry, site_for, record_sample}
use orxies.Security.{HeaderMap, set_all, merge_edge_headers, edge_hsts, transport_security}
use orxies.Proxy.Limiter.{
  Limiter, Release, new_limiter, with_global, with_max_in_flight, allow, acquire, release,
}
use orxies.Proxy.Pool.{Url, Pool, new_pool, next_upstream}
use orxies.Proxy.Request.{
  Request, scheme_of, sanitize_host_for_log, common_exploit_pattern, scanner_ua, client_ip,
  single_join,
}

-- `pool` is `none` for a static site.
pub record SiteRuntime : Type 0 where
  pub site : Site
  pub pool : Option Pool
  pub limiter : Option Limiter
  pub headers : HeaderMap

pub record Router : Type 0 where
  pub store : Store
  pub registry : Registry
  pub trust_headers : Bool
  pub heap : List SiteRuntime
  pub runtimes : List (Text × ℕ)
  pub stopping : Bool

pub record Response : Type 0 where
  pub code : ℕ
  pub headers : HeaderMap
  pub body : Text

-- What `ServeHTTP` knows of a request that it hands on, by `handle` to the runtime.
pub record Pass : Type 0 where
  pub domain : Text
  pub handle : ℕ
  pub slot : Release
  pub headers : HeaderMap

pub data Outcome : Type 0 where
  answered : Response → Outcome
  passed : Pass → Outcome

-- The readings of the clocks: those of the two buckets, the second of the metrics, and the time
-- since the request came in.
pub record Clock : Type 0 where
  pub global_at : ℕ
  pub per_ip_at : ℕ
  pub second : ℕ
  pub since : ℕ

abbrev pub error_response : ℕ → Text → Outcome
error_response code body = Outcome.answered (record { code = code; headers = []; body = body })

abbrev pub retry_response : ℕ → Text → Text → Outcome
retry_response code seconds body =
    Outcome.answered
      (record { code = code; headers = (codes "Retry-After", seconds) ∷ []; body = body })

unfoldable pub record_metric : Registry → Text → Sample → ℕ → Registry
unfolding site_for record_sample
record_metric reg domain sm second =
    let (reg', s) = site_for reg domain in insert domain (record_sample s second sm) reg'

unfoldable pub set_limiter : Router → ℕ → SiteRuntime → Option Limiter → Router
set_limiter r h rt l = record r { heap = set r.heap h (record rt { limiter = l }) }

abbrev pub hsts_headers : Request → HeaderMap
hsts_headers req = if req.tls then (transport_security, edge_hsts true) ∷ [] else []

-- A static site gets its headers here, a proxied one from `modify_response`.
abbrev pub pass_headers : SiteRuntime → Request → HeaderMap
pass_headers rt req = elim rt.pool [
  | none ↦ set_all rt.headers (hsts_headers req)
  | some p ↦ hsts_headers req
]

abbrev pub passes : SiteRuntime → ℕ → Text → Request → Release → Outcome
passes rt h domain req slot =
    Outcome.passed
      (record { domain = domain; handle = h; slot = slot; headers = pass_headers rt req })

unfoldable pub shed : Router → Clock → Text → ℕ → Router
unfolding record_metric
shed r ck domain code = record r {
  registry =
      record_metric r.registry domain (record { status = code; bytes = 0; latency = ck.since })
        ck.second;
}

-- The concurrency gate, behind the rate limit, with what `Acquire` gives.
abbrev pub gated :
    Router
    → Clock
    → Request
    → Text
    → ℕ
    → SiteRuntime
    → Option Limiter × Option Release
    → Router × Outcome
gated r ck req domain h rt (l, none) = (
  shed (set_limiter r h rt l) ck domain 503,
  retry_response 503 (codes "5") (codes "Service Unavailable"),
)
gated r ck req domain h rt (l, some rel) = (set_limiter r h rt l, passes rt h domain req rel)

-- What follows the answer of `Allow`.
abbrev pub limited :
    Router → Clock → Request → Text → ℕ → SiteRuntime → Option Limiter × Bool → Router × Outcome
limited r ck req domain h rt (l, false) = (
  shed (set_limiter r h rt l) ck domain 429,
  retry_response 429 (codes "10") (codes "Too Many Requests"),
)
limited r ck req domain h rt (l, true) = gated r ck req domain h rt (acquire l)

-- The runtime of a domain with its place, or `none` where the map has no entry.
abbrev pub runtime_at : Router → Text → Option (ℕ × SiteRuntime)
runtime_at r domain = elim (lookup domain r.runtimes) [
  | none ↦ none
  | some h ↦ elim (get_elem? r.heap h) [ none ↦ none | some rt ↦ some (h, rt) ]
]

abbrev pub redirects : Site → Request → Bool
redirects site req = site.http_to_https && not req.tls

abbrev pub blocks : Site → Request → Bool
blocks site req =
    site.block_common_exploits && (common_exploit_pattern req.path || scanner_ua req.user_agent)

module _ (split_host : Text → Option Text) where
  -- A site without limits, or what `Allow` says.
  abbrev pub at_limiter :
      Router → Clock → Request → Text → ℕ → SiteRuntime → Option Limiter → Router × Outcome
  at_limiter r ck req domain h rt none = (r, passes rt h domain req Release.noop)
  at_limiter r ck req domain h rt (some l) =
      limited r ck req domain h rt
        (allow (some l) ck.global_at ck.per_ip_at (client_ip split_host r.trust_headers req))

  abbrev pub at_runtime :
      Router → Clock → Request → Text → Option (ℕ × SiteRuntime) → Router × Outcome
  at_runtime r ck req domain none = (r, error_response 503 (codes "Service Unavailable"))
  at_runtime r ck req domain (some (h, rt)) = at_limiter r ck req domain h rt rt.limiter

  unfoldable pub at_site : Router → Clock → Request → Option Site → Router × Outcome
  at_site r ck req none =
      (r, error_response 404 (codes "No site configured for " ++ sanitize_host_for_log req.host))
  at_site r ck req (some site) =
      if redirects site req
      then (
        r,
        Outcome.answered (record {
          code = 301;
          headers = (codes "Location", codes "https://" ++ req.host ++ req.request_uri) ∷ [];
          body = [];
        }),
      )
      else if blocks site req
      then (r, error_response 403 (codes "Forbidden"))
      else at_runtime r ck req site.domain (runtime_at r site.domain)

  unfoldable pub begin_request : Router → Clock → Request → Router × Outcome
  unfolding at_site
  begin_request r ck req =
      if r.stopping
      then (r, error_response 503 (codes "Service Unavailable"))
      else at_site r ck req (lookup_host r.store req.host)

-- What `ServeHTTP` does when the handler returns: the metric, and then the deferred release.
unfoldable pub give_slot_back : Router → ℕ → Release → Option SiteRuntime → Release × Router
unfolding release set_limiter
give_slot_back r h slot none = (slot, r)
give_slot_back r h slot (some rt) =
    let (slot', l) = release slot rt.limiter in (slot', set_limiter r h rt l)

unfoldable pub finish_request : Router → Pass → Sample → ℕ → Release × Router
unfolding record_metric give_slot_back
finish_request r p sm second =
    let r' = record r { registry = record_metric r.registry p.domain sm second } in
    give_slot_back r' p.handle p.slot (get_elem? r'.heap p.handle)

abbrev pub stop : Router → Router
stop r = record r { stopping = true }
