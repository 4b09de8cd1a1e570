-- ===== src/Proxy/Router/Requests.antt =====
-- internal/proxy/router.go: what holds of a request that ServeHTTP hands on to a site.
use orxies.Prelude.{
  ℕ, ◌≡◌, refl, ap, sym, ◌∙◌, Bool, true, false, Option, none, some, Text, arith, Bool-cases, inl,
  inr,
}
use orxies.Config.{Site}
use orxies.Config.Index.{lookup_host}
use orxies.Proxy.Limiter.{Limiter, allow, acquire, Release, noop}
use orxies.Proxy.Request.{Request, client_ip}
use orxies.Proxy.Router.Caps.{counts, gate_of, due, has_room, allow-gate_of, acquire-due}
use orxies.Proxy.Router.{
  Router, SiteRuntime, Clock, Pass, Outcome, begin_request, at_site, at_runtime, at_limiter, gated,
  limited, runtime_at, redirects, blocks,
}

module _ (split_host : Text → Option Text) where
  -- What the limiter says of a request, `true` where there is none.
  abbrev pub within_rates : Router → Clock → Request → Option Limiter → Bool
  within_rates r ck req l =
      (allow l ck.global_at ck.per_ip_at (client_ip split_host r.trust_headers req)).1

  -- Every check that a request must get past: the router takes requests, the host has a site, it
  -- came over TLS or need not, it looks like no probe, and the site has a runtime, whose rates allow it
  -- and whose cap has room. The pass then has a slot that counts if there is a cap, and else none.
  pub record Cleared (r : Router) (ck : Clock) (req : Request) (p : Pass) : Type 0 where
    pub open_for_work : r.stopping ≡ false
    pub site : Site
    pub found : lookup_host r.store req.host ≡ some site
    pub named : site.domain ≡ p.domain
    pub secure : redirects site req ≡ false
    pub harmless : blocks site req ≡ false
    pub runtime : SiteRuntime
    pub present : runtime_at r site.domain ≡ some (p.handle, runtime)
    pub allowed : within_rates r ck req runtime.limiter ≡ true
    pub room : has_room (gate_of runtime.limiter) ≡ true
    pub slot : counts p.slot ≡ due (gate_of runtime.limiter)

  gated-handle :
      (r : Router) (ck : Clock) (req : Request) (domain : Text) (h : ℕ) (rt : SiteRuntime)
      (got : Option Limiter × Option Release) (p : Pass)
      → (gated r ck req domain h rt got).1 ≡ Outcome.passed p
      → (domain ≡ p.domain) × (h ≡ p.handle) × (got.1 ≡ some p.slot)
  gated-handle r ck req domain h rt (l, none) p e = ground arith
  gated-handle r ck req domain h rt (l, some rel) p e = ground arith

  limited-handle :
      (r : Router) (ck : Clock) (req : Request) (domain : Text) (h : ℕ) (rt : SiteRuntime)
      (said : Option Limiter × Bool) (p : Pass)
      → (limited r ck req domain h rt said).1 ≡ Outcome.passed p
      → (domain ≡ p.domain) × (h ≡ p.handle) × (said.1 ≡ true) × ((acquire said.0).1 ≡ some p.slot)
  limited-handle r ck req domain h rt (l, false) p e = ground arith
  limited-handle r ck req domain h rt (l, true) p e =
      let (d, at, slot) = gated-handle r ck req domain h rt (acquire l) p e in (d, at, refl, slot)

  at_limiter-handle :
      (r : Router) (ck : Clock) (req : Request) (domain : Text) (h : ℕ) (rt : SiteRuntime)
      (l : Option Limiter) (p : Pass)
      → (at_limiter split_host r ck req domain h rt l).1 ≡ Outcome.passed p
      → (domain ≡ p.domain)
        × (h ≡ p.handle)
        × (within_rates r ck req l ≡ true)
        × (has_room (gate_of l) ≡ true)
        × (counts p.slot ≡ due (gate_of l))
  unfolding allow
  at_limiter-handle r ck req domain h rt none p e =
      let noop_given : noop ≡ p.slot = ground arith in
      (ground arith, ground arith, refl, refl, ap counts (sym noop_given))
  at_limiter-handle r ck req domain h rt (some l) p e =
      let ip = client_ip split_host r.trust_headers req in
      let said = allow (some l) ck.global_at ck.per_ip_at ip in
      let same = allow-gate_of l ck.global_at ck.per_ip_at ip in
      let (d, at, ok, given) = limited-handle r ck req domain h rt said p e in
      let (slot, room) = acquire-due said.0 p.slot given in
      (d, at, ok, ap has_room (sym same) ∙ room, slot ∙ ap due same)

  at_runtime-handle :
      (r : Router) (ck : Clock) (req : Request) (domain : Text) (o : Option (ℕ × SiteRuntime))
      (p : Pass)
      → (at_runtime split_host r ck req domain o).1 ≡ Outcome.passed p
      → (rt : SiteRuntime) × (domain ≡ p.domain)
        × (o ≡ some (p.handle, rt))
        × (within_rates r ck req rt.limiter ≡ true)
        × (has_room (gate_of rt.limiter) ≡ true)
        × (counts p.slot ≡ due (gate_of rt.limiter))
  at_runtime-handle r ck req domain none p e = ground arith
  at_runtime-handle r ck req domain (some (h, rt)) p e =
      let (d, same, ok, room, slot) = at_limiter-handle r ck req domain h rt rt.limiter p e in
      (rt, d, ap (λ x. some (x, rt)) same, ok, room, slot)

  at_site-Cleared :
      (r : Router) (ck : Clock) (req : Request) (o : Option Site) (p : Pass)
      → lookup_host r.store req.host ≡ o
      → r.stopping ≡ false
      → (at_site split_host r ck req o).1 ≡ Outcome.passed p
      → Cleared r ck req p
  unfolding at_site
  at_site-Cleared r ck req none p found running e = ground arith
  at_site-Cleared r ck req (some site) p found running e = elim (Bool-cases (redirects site req)) [
    | inl away ↦ ground arith
    | inr stays ↦ elim (Bool-cases (blocks site req)) [
      | inl bad ↦ ground arith
      | inr fine ↦
          let passes : (at_runtime split_host r ck req site.domain (runtime_at r site.domain)).1
              ≡ Outcome.passed p =
            ground arith in
          let (rt, named, present, ok, room, slot) =
            at_runtime-handle r ck req site.domain (runtime_at r site.domain) p passes in
          record {
            open_for_work = running;
            site = site;
            found = found;
            named = named;
            secure = stays;
            harmless = fine;
            runtime = rt;
            present = present;
            allowed = ok;
            room = room;
            slot = slot;
          }
    ]
  ]

  pub begin_request-Cleared :
      (r : Router) (ck : Clock) (req : Request) (p : Pass)
      → (begin_request split_host r ck req).1 ≡ Outcome.passed p
      → Cleared r ck req p
  unfolding begin_request
  begin_request-Cleared r ck req p e = elim (Bool-cases r.stopping) [
    | inl stopped ↦ ground arith
    | inr running ↦
        at_site-Cleared r ck req (lookup_host r.store req.host) p refl running (ground arith)
  ]
