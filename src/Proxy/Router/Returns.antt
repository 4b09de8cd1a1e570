-- ===== src/Proxy/Router/Returns.antt =====
-- internal/proxy/router.go: the deferred release of a request, and its closure in ratelimit.go.
use orxies.Prelude.{
  ℕ, ◌≡◌, ap, sym, ◌∙◌, true, false, some, ◌==◌, ==_iff, if◌then◌else◌, get_elem?, Bool-cases, inl,
  inr,
}
use orxies.Prelude.Int.{pos, ◌+ℤ◌, int_laws}
use orxies.Metrics.{Sample}
use orxies.Proxy.Limiter.{Limiter, Release, noop, give_back, release, in_flight}
use orxies.Proxy.Router.{
  Router, SiteRuntime, Pass, Outcome, finish_request, give_slot_back, set_limiter, record_metric,
}
use orxies.Proxy.Router.Caps.{counts}
use orxies.Proxy.Router.Slots.{load, taken, get_elem?-set_if, +ℤ_zero}

release-in_flight :
    (rel : Release) (l : Limiter)
    → in_flight (release rel (some l)).1 +ℤ pos (counts rel) ≡ l.in_flight
unfolding release
release-in_flight noop l = +ℤ_zero l.in_flight
release-in_flight (give_back true) l = +ℤ_zero l.in_flight
release-in_flight (give_back false) l = omega int_laws

give_slot_back-load :
    (r : Router) (h j : ℕ) (rel : Release) (rt : SiteRuntime) (l : Limiter)
    → get_elem? r.heap h ≡ some rt
    → rt.limiter ≡ some l
    → load (give_slot_back r h rel (some rt)).1 j +ℤ pos (if h == j then counts rel else 0)
      ≡ load r j
unfolding give_slot_back set_limiter
give_slot_back-load r h j rel rt l e f =
    let rt' : SiteRuntime = record rt { limiter = (release rel rt.limiter).1 } in
    let there = get_elem?-set_if r.heap h j rt rt' e in
    elim (Bool-cases (h == j)) [
      | inl same ↦
          let at : get_elem? r.heap j ≡ some rt =
            ap (get_elem? r.heap) (sym ((==_iff h j).0 same)) ∙ e in
          rw (there, same, at)
            (ap (λ o. in_flight (release rel o).1 +ℤ pos (counts rel)) f
              ∙ release-in_flight rel l
              ∙ ap in_flight (sym f))
      | inr other ↦ rw (there, other) (+ℤ_zero (load r j))
    ]

-- When a site that has a limiter is done with a request, what the request held of its slots is given
-- back, and the slots of no other runtime change.
pub finish_request-returns :
    (r : Router) (p : Pass) (sm : Sample) (second j : ℕ) (rt : SiteRuntime) (l : Limiter)
    → get_elem? r.heap p.handle ≡ some rt
    → rt.limiter ≡ some l
    → load (finish_request r p sm second).1 j +ℤ pos (taken (Outcome.passed p) j) ≡ load r j
unfolding finish_request
finish_request-returns r p sm second j rt l e f =
    let r' : Router = record r { registry = record_metric r.registry p.domain sm second } in
    ap (λ o. load (give_slot_back r' p.handle p.slot o).1 j +ℤ pos (taken (Outcome.passed p) j)) e
    ∙ give_slot_back-load r' p.handle j p.slot rt l e f
