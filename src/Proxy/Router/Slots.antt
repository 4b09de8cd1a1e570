-- ===== src/Proxy/Router/Slots.antt =====
-- internal/proxy/router.go: a request takes a slot of its site at most, and gives it back.
use orxies.Prelude.{
  ℕ, zero, suc, ◌≡◌, refl, ap, ◌∙◌, sym, leb, lookup, text_key, Bool, true, false, List, [], ◌∷◌,
  Option, none, some, Text, ◌==◌, if◌then◌else◌, get_elem?, set, ==_iff, arith, Bool-cases,
  Option-cases, inl, inr,
}
use orxies.Prelude.Int.{ℤ, pos, ltb_ℤ, ◌+ℤ◌}
use orxies.Proxy.Limiter.{Limiter, Release, allow, acquire, in_flight}
use orxies.Config.{Site}
use orxies.Config.Index.{lookup_host}
use orxies.Proxy.Request.{Request, client_ip}
use orxies.Proxy.Router.Caps.{counts, gate_of, due, allow-gate_of}
use orxies.Proxy.Router.Requests.{begin_request-Cleared}
use orxies.Proxy.Router.{
  Router, SiteRuntime, Clock, Outcome, begin_request, set_limiter, shed, at_site, at_runtime,
  at_limiter, gated, limited, redirects, blocks, runtime_at,
}

abbrev pub of_runtime : Option SiteRuntime → ℤ
of_runtime none = pos 0
of_runtime (some rt) = in_flight rt.limiter

-- The requests in flight at a place of the heap.
abbrev pub load : Router → ℕ → ℤ
load r h = of_runtime (get_elem? r.heap h)

-- The slots that the outcome of a request holds at a place.
abbrev pub taken : Outcome → ℕ → ℕ
taken (Outcome.answered resp) j = 0
taken (Outcome.passed p) j = if p.handle == j then counts p.slot else 0

-- What a runtime takes for a request: a slot if it has a cap.
abbrev pub due_of : Option SiteRuntime → ℕ
due_of none = 0
due_of (some rt) = due (gate_of rt.limiter)

-- The slots that a request is to take at a place, by the cap of the runtime that it is handed to.
abbrev pub due_at : Router → Outcome → ℕ → ℕ
due_at r (Outcome.answered resp) j = 0
due_at r (Outcome.passed p) j = if p.handle == j then due_of (get_elem? r.heap j) else 0

pub get_elem?-set_if :
    (rts : List SiteRuntime) (h j : ℕ) (old v : SiteRuntime)
    → get_elem? rts h ≡ some old
    → get_elem? (set rts h v) j ≡ (if h == j then some v else get_elem? rts j)
get_elem?-set_if [] h j old v e = ground arith
get_elem?-set_if (x ∷ rts) zero zero old v e = ground arith
get_elem?-set_if (x ∷ rts) zero (suc j) old v e = ground arith
get_elem?-set_if (x ∷ rts) (suc h) zero old v e = ground arith
get_elem?-set_if (x ∷ rts) (suc h) (suc j) old v e =
    ground (arith, get_elem?-set_if rts h j old v e)

pub +ℤ_zero : (n : ℤ) → n +ℤ pos 0 ≡ n
unfolding ◌+ℤ◌
+ℤ_zero n = ground arith

abbrev slots : Option Release → ℕ
slots none = 0
slots (some rel) = counts rel

acquire-in_flight :
    (l : Option Limiter) → in_flight (acquire l).0 ≡ in_flight l +ℤ pos (slots (acquire l).1)
unfolding acquire
acquire-in_flight none = sym (+ℤ_zero (pos 0))
acquire-in_flight (some l) = elim (Bool-cases (leb l.max_in_flight 0)) [
  | inl open_gate ↦ rw open_gate (sym (+ℤ_zero l.in_flight))
  | inr capped ↦ elim (Bool-cases (ltb_ℤ l.in_flight (pos l.max_in_flight))) [
    | inl room ↦ rw (capped, room) refl
    | inr full ↦ rw (capped, full) (sym (+ℤ_zero l.in_flight))
  ]
]

load-set_limiter :
    (r : Router) (h j : ℕ) (rt : SiteRuntime) (l : Option Limiter) (n : ℕ)
    → get_elem? r.heap h ≡ some rt
    → in_flight l ≡ in_flight rt.limiter +ℤ pos n
    → load (set_limiter r h rt l) j ≡ load r j +ℤ pos (if h == j then n else 0)
unfolding set_limiter
load-set_limiter r h j rt l n e f =
    ap of_runtime (get_elem?-set_if r.heap h j rt (record rt { limiter = l }) e)
    ∙ elim (Bool-cases (h == j)) [
      | inl same ↦
          let at : get_elem? r.heap j ≡ some rt =
            ap (get_elem? r.heap) (sym ((==_iff h j).0 same)) ∙ e in
          rw (same, at) f
      | inr other ↦ rw other (sym (+ℤ_zero (load r j)))
    ]

-- Nothing is held by an answer, and by a pass what its slot counts.
abbrev Holding : Router → Router × Outcome → ℕ → Type 0
Holding r (r', o) j = load r' j ≡ load r j +ℤ pos (taken o j)

if_zero : (b : Bool) → ◌≡◌ {A = ℕ} (if b then 0 else 0) 0
if_zero true = refl
if_zero false = refl

Holding-if :
    (r : Router) (b : Bool) (x y : Router × Outcome) (j : ℕ)
    → Holding r x j
    → Holding r y j
    → Holding r (if b then x else y) j
Holding-if r true x y j hx hy = hx
Holding-if r false x y j hx hy = hy

gated-Holding :
    (r : Router) (ck : Clock) (req : Request) (domain : Text) (h j : ℕ) (rt : SiteRuntime)
    (got : Option Limiter × Option Release)
    → get_elem? r.heap h ≡ some rt
    → in_flight got.0 ≡ in_flight rt.limiter +ℤ pos (slots got.1)
    → Holding r (gated r ck req domain h rt got) j
unfolding shed
gated-Holding r ck req domain h j rt (l, none) e f =
    load-set_limiter r h j rt l 0 e f ∙ ap (λ n. load r j +ℤ pos n) (if_zero (h == j))
gated-Holding r ck req domain h j rt (l, some rel) e f =
    load-set_limiter r h j rt l (counts rel) e f

limited-Holding :
    (r : Router) (ck : Clock) (req : Request) (domain : Text) (h j : ℕ) (rt : SiteRuntime)
    (said : Option Limiter × Bool)
    → get_elem? r.heap h ≡ some rt
    → in_flight said.0 ≡ in_flight rt.limiter
    → Holding r (limited r ck req domain h rt said) j
unfolding shed
limited-Holding r ck req domain h j rt (l, false) e f =
    load-set_limiter r h j rt l 0 e (f ∙ sym (+ℤ_zero (in_flight rt.limiter)))
    ∙ ap (λ n. load r j +ℤ pos n) (if_zero (h == j))
limited-Holding r ck req domain h j rt (l, true) e f =
    gated-Holding r ck req domain h j rt (acquire l) e
      (acquire-in_flight l ∙ ap (λ n. n +ℤ pos (slots (acquire l).1)) f)

runtime_at-heap :
    (r : Router) (domain : Text) (h : ℕ) (rt : SiteRuntime)
    → runtime_at r domain ≡ some (h, rt)
    → get_elem? r.heap h ≡ some rt
runtime_at-heap r domain h rt e = elim (Option-cases (lookup domain r.runtimes)) [
  | inl f ↦ ground (arith, f)
  | inr (k, f) ↦ elim (Option-cases (get_elem? r.heap k)) [
    | inl g ↦ ground (arith, f, g)
    | inr (old, g) ↦ ground (arith, f, g)
  ]
]

module _ (split_host : Text → Option Text) where
  at_limiter-Holding :
      (r : Router) (ck : Clock) (req : Request) (domain : Text) (h j : ℕ) (rt : SiteRuntime)
      (l : Option Limiter)
      → get_elem? r.heap h ≡ some rt
      → in_flight l ≡ in_flight rt.limiter
      → Holding r (at_limiter split_host r ck req domain h rt l) j
  unfolding allow
  at_limiter-Holding r ck req domain h j rt none e f =
      sym (ap (λ n. load r j +ℤ pos n) (if_zero (h == j)) ∙ +ℤ_zero (load r j))
  at_limiter-Holding r ck req domain h j rt (some l) e f =
      let ip = client_ip split_host r.trust_headers req in
      limited-Holding r ck req domain h j rt (allow (some l) ck.global_at ck.per_ip_at ip) e
        (ap (λ g. g.0) (allow-gate_of l ck.global_at ck.per_ip_at ip) ∙ f)

  at_runtime-Holding :
      (r : Router) (ck : Clock) (req : Request) (domain : Text) (o : Option (ℕ × SiteRuntime))
      (j : ℕ)
      → runtime_at r domain ≡ o
      → Holding r (at_runtime split_host r ck req domain o) j
  at_runtime-Holding r ck req domain none j e = sym (+ℤ_zero (load r j))
  at_runtime-Holding r ck req domain (some (h, rt)) j e =
      at_limiter-Holding r ck req domain h j rt rt.limiter (runtime_at-heap r domain h rt e) refl

  at_site-Holding :
      (r : Router) (ck : Clock) (req : Request) (o : Option Site) (j : ℕ)
      → Holding r (at_site split_host r ck req o) j
  unfolding at_site
  at_site-Holding r ck req none j = sym (+ℤ_zero (load r j))
  at_site-Holding r ck req (some site) j =
      let kept = sym (+ℤ_zero (load r j)) in
      Holding-if r (redirects site req) _ _ j kept (
        Holding-if r (blocks site req) _ _ j kept
          (at_runtime-Holding r ck req site.domain (runtime_at r site.domain) j refl))

  begin_request-Holding :
      (r : Router) (ck : Clock) (req : Request) (j : ℕ)
      → Holding r (begin_request split_host r ck req) j
  unfolding begin_request
  begin_request-Holding r ck req j =
      Holding-if r r.stopping _ _ j (sym (+ℤ_zero (load r j)))
        (at_site-Holding r ck req (lookup_host r.store req.host) j)

  taken-due_at :
      (r : Router) (ck : Clock) (req : Request) (j : ℕ) (o : Outcome)
      → (begin_request split_host r ck req).1 ≡ o
      → taken o j ≡ due_at r o j
  taken-due_at r ck req j (Outcome.answered resp) e = refl
  taken-due_at r ck req j (Outcome.passed p) e = elim (Bool-cases (p.handle == j)) [
    | inr other ↦ rw other refl
    | inl own ↦
        let c = begin_request-Cleared split_host r ck req p e in
        let at = runtime_at-heap r c.site.domain p.handle c.runtime c.present in
        let here : get_elem? r.heap j ≡ some c.runtime =
          ap (get_elem? r.heap) (sym ((==_iff p.handle j).0 own)) ∙ at in
        rw own (c.slot ∙ ap due_of (sym here))
  ]

  -- A request takes one slot of the site that it is handed on to if that site caps its requests in
  -- flight, and no other slot: a request that the router answers itself takes none anywhere. The
  -- pass holds just the slot that is taken.
  pub begin_request-taken :
      (r : Router) (ck : Clock) (req : Request) (j : ℕ)
      → (load (begin_request split_host r ck req).0 j
          ≡ load r j +ℤ pos (due_at r (begin_request split_host r ck req).1 j))
        × (taken (begin_request split_host r ck req).1 j
            ≡ due_at r (begin_request split_host r ck req).1 j)
  begin_request-taken r ck req j =
      let same = taken-due_at r ck req j (begin_request split_host r ck req).1 refl in
      (begin_request-Holding r ck req j ∙ ap (λ n. load r j +ℤ pos n) same, same)
