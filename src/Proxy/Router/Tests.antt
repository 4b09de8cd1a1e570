-- ===== src/Proxy/Router/Tests.antt =====
-- A request to a site, from its host to its slot, and the theorems at it.
use orxies.Prelude.{
  ◌≡◌, refl, true, false, List, [], ◌∷◌, Option, none, some, Text, codes, lookup, insert, keep,
  text_key, nat_key,
}
use orxies.Prelude.Int.{pos, ◌+ℤ◌, ◌-ℤ◌}
use orxies.Config.{Site}
use orxies.Config.Index.{canonical_host, lookup_host}
use orxies.Metrics.{Sample, site_for, record_sample, observe, millis}
use orxies.Security.{set_all}
use orxies.Proxy.Limiter.{
  Limiter, give_back, filled, refill, take_one, spend, allow_global, allow_per_ip, allow,
  maybe_sweep, sweep_locked, is_idle, admit, acquire, release,
}
use orxies.Proxy.Request.{
  Request, common_exploit_pattern, scanner_ua, sanitize_host_for_log, client_ip,
}
use orxies.Proxy.Router.{
  Router, SiteRuntime, Clock, Pass, Outcome, begin_request, finish_request, at_site, shed,
  set_limiter, record_metric, give_slot_back,
}
use orxies.Proxy.Pool.{Url}
use orxies.Proxy.Router.Reloads.{reload, reload_sites, build_runtime, route}
use orxies.Proxy.Router.Routes.{Serves, reload-Serves}
use orxies.Proxy.Router.Slots.{load, taken, due_at, begin_request-taken}
use orxies.Proxy.Router.Returns.{finish_request-returns}

program : Unit {0}
unfolding begin_request at_site lookup_host canonical_host common_exploit_pattern scanner_ua
    client_ip sanitize_host_for_log allow allow_global allow_per_ip maybe_sweep sweep_locked is_idle
    admit spend take_one refill filled acquire release set_limiter shed record_metric give_slot_back
    finish_request site_for record_sample observe millis set_all lookup insert keep ◌+ℤ◌ ◌-ℤ◌
program = tt

abbrev split_host : Text → Option Text
split_host t = some t

abbrev shop : Site
shop = record {
  filename = [];
  domain = codes "shop.io";
  aliases = [];
  upstreams = codes "127.0.0.1:8082" ∷ [];
  root = [];
  spa = false;
  enabled = true;
  tls = record { auto = true; cert_file = []; key_file = [] };
  http_to_https = true;
  web_socket = false;
  block_common_exploits = true;
  rate_limit = record {
    enabled = true;
    rps = pos 1;
    burst = pos 1;
    global_rps = pos 0;
    global_burst = pos 0;
    max_in_flight = pos 1;
  };
  custom_headers = [];
}

abbrev limits : Limiter
limits = record {
  rps = 1;
  burst = 2;
  bs = [];
  last_sweep = 0;
  global = none;
  global_rps = 0;
  global_burst = 0;
  in_flight = pos 0;
  max_in_flight = 1;
}

abbrev runtime : SiteRuntime
runtime = record { site = shop; pool = none; limiter = some limits; headers = [] }

abbrev edge : Router
edge = record {
  store = record { sites = shop ∷ []; by_domain = (codes "shop.io", shop) ∷ [] };
  registry = [];
  trust_headers = false;
  heap = runtime ∷ [];
  runtimes = (codes "shop.io", 0) ∷ [];
  stopping = false;
}

abbrev visit : Request
visit = record {
  host = codes "Shop.io:443";
  path = codes "/";
  request_uri = codes "/";
  tls = true;
  user_agent = codes "curl";
  remote_addr = codes "1.2.3.4";
  x_forwarded_for = [];
  x_real_ip = [];
  x_forwarded_proto = [];
}

abbrev clock : Clock
clock = record { global_at = 5; per_ip_at = 6; second = 7; since = 1 }

abbrev hsts_only : List (Text × Text)
hsts_only = (codes "Strict-Transport-Security", codes "max-age=15552000") ∷ []

abbrev pass : Pass
pass = record { domain = codes "shop.io"; handle = 0; slot = give_back false; headers = hsts_only }

begin_request-taken_example :
    (load (begin_request split_host edge clock visit).0 0
      ≡ load edge 0 +ℤ pos (due_at edge (begin_request split_host edge clock visit).1 0))
    × (taken (begin_request split_host edge clock visit).1 0
        ≡ due_at edge (begin_request split_host edge clock visit).1 0)
begin_request-taken_example = begin_request-taken split_host edge clock visit 0

abbrev busy : Router
busy = record edge {
  heap = record runtime { limiter = some (record limits { in_flight = pos 1 }) } ∷ [];
}

abbrev served : Sample
served = record { status = 200; bytes = 10; latency = 1000 }

finish_request-returns_example :
    load (finish_request busy pass served 8).1 0 +ℤ pos (taken (Outcome.passed pass) 0)
    ≡ load busy 0
finish_request-returns_example =
    finish_request-returns busy pass served 8 0
      (record runtime { limiter = some (record limits { in_flight = pos 1 }) })
      (record limits { in_flight = pos 1 }) refl refl

abbrev parse_url : Text → Option Url
parse_url raw = some (record { scheme = codes "http"; host = raw; path = [] })

rerouted : lookup (codes "shop.io") (reload parse_url edge (shop ∷ []) 9).runtimes ≡ some 1
unfolding program reload reload_sites build_runtime route
rerouted = refl

reload-Serves_example : Serves (reload parse_url edge (shop ∷ []) 9).heap (codes "shop.io") 1
reload-Serves_example = reload-Serves parse_url edge (shop ∷ []) 9 (codes "shop.io") 1 rerouted
