-- ===== src/Proxy/Router/Routes.antt =====
-- internal/proxy/router.go: where the domains lead after a reload.
use orxies.Prelude.{
  ℕ, zero, suc, ◌≡◌, refl, sym, ap, ◌∙◌, Bool, true, false, ◌||◌, List, [], ◌∷◌, ◌++◌, Option, none,
  some, if◌then◌else◌, length, get_elem?, Text, text_key, text_eq, lookup, insert, lookup-insert,
  is_empty, arith, Bool-cases, Option-cases, inl, inr,
}
use mathlib.Core.Path.{subst}
use orxies.Config.{Site, all_domains}
use orxies.Proxy.Pool.{Url, new_pool}
use orxies.Proxy.Router.{Router, SiteRuntime}
use orxies.Proxy.Router.Reloads.{
  Reloading, route, add_runtime, runtime_with, build_runtime, reload_sites, reload,
}

abbrev pub lists : List Text → Text → Bool
lists [] name = false
lists (d ∷ ds) name = text_eq d name || lists ds name

-- The runtime at a place is that of a site that is enabled and lists the domain.
pub record Serves (heap : List SiteRuntime) (name : Text) (h : ℕ) : Type 0 where
  pub runtime : SiteRuntime
  pub present : get_elem? heap h ≡ some runtime
  pub listed : lists (all_domains runtime.site) name ≡ true
  pub enabled : runtime.site.enabled ≡ true

abbrev Routed : Reloading → Type 0
Routed st = (name : Text) (h : ℕ) → lookup name st.next ≡ some h → Serves st.heap name h

lookup-route :
    (ds : List Text) (h : ℕ) (m : List (Text × ℕ)) (name : Text)
    → lookup name (route ds h m) ≡ (if lists ds name then some h else lookup name m)
unfolding route
lookup-route [] h m name = refl
lookup-route (d ∷ ds) h m name =
    ground (arith, lookup-route ds h (insert d h m) name, lookup-insert d name h m)

get_elem?-append :
    (xs : List SiteRuntime) (y x : SiteRuntime) (h : ℕ)
    → get_elem? xs h ≡ some x
    → get_elem? (xs ++ (y ∷ [])) h ≡ some x
get_elem?-append [] y x h e = ground arith
get_elem?-append (z ∷ xs) y x zero e = e
get_elem?-append (z ∷ xs) y x (suc h) e = get_elem?-append xs y x h e

get_elem?-append_last :
    (xs : List SiteRuntime) (y : SiteRuntime) → get_elem? (xs ++ (y ∷ [])) (length xs) ≡ some y
get_elem?-append_last [] y = refl
get_elem?-append_last (z ∷ xs) y = get_elem?-append_last xs y

add_runtime-Routed :
    (s : Site) (rt : SiteRuntime) (st : Reloading)
    → rt.site ≡ s
    → s.enabled ≡ true
    → Routed st
    → Routed (add_runtime s (some rt) st)
add_runtime-Routed s rt st own on routed name h e = elim (Bool-cases (lists (all_domains s) name)) [
  | inl mine ↦
      let at : length st.heap ≡ h =
        ground (arith, lookup-route (all_domains s) (length st.heap) st.next name, mine) in
      record {
        runtime = rt;
        present =
            subst (λ n. get_elem? (st.heap ++ (rt ∷ [])) n ≡ some rt) at
              (get_elem?-append_last st.heap rt);
        listed = ap (λ x. lists (all_domains x) name) own ∙ mine;
        enabled = ap (λ x. x.enabled) own ∙ on;
      }
  | inr foreign ↦
      let before : lookup name st.next ≡ some h =
        ground (arith, lookup-route (all_domains s) (length st.heap) st.next name, foreign) in
      let old = routed name h before in
      record {
        runtime = old.runtime;
        present = get_elem?-append st.heap rt old.runtime h old.present;
        listed = old.listed;
        enabled = old.enabled;
      }
]

module _ (parse_url : Text → Option Url) where
  build_runtime-site :
      (s : Site) (now : ℕ) (rt : SiteRuntime)
      → build_runtime parse_url s now ≡ some rt
      → (rt.site ≡ s) × (s.enabled ≡ true)
  unfolding build_runtime
  build_runtime-site s now rt e = elim (Bool-cases s.enabled) [
    | inr off ↦ absurd (ground (arith, off))
    | inl on ↦ elim (Bool-cases (is_empty s.root)) [
      | inr static ↦
          let made : runtime_with s now none ≡ rt = ground (arith, on, static) in
          (ap (λ x. x.site) (sym made), on)
      | inl proxied ↦ elim (Option-cases (new_pool parse_url s.upstreams)) [
        | inl bad ↦ absurd (ground (arith, on, proxied, bad))
        | inr (p, good) ↦
            let made : runtime_with s now (some p) ≡ rt = ground (arith, on, proxied, good) in
            (ap (λ x. x.site) (sym made), on)
      ]
    ]
  ]

  built-Routed :
      (s : Site) (now : ℕ) (o : Option SiteRuntime) (st : Reloading)
      → build_runtime parse_url s now ≡ o
      → Routed st
      → Routed (add_runtime s o st)
  built-Routed s now none st e routed = routed
  built-Routed s now (some rt) st e routed =
      let (own, on) = build_runtime-site s now rt e in add_runtime-Routed s rt st own on routed

  reload_sites-Routed :
      (ss : List Site) (now : ℕ) (st : Reloading)
      → Routed st
      → Routed (reload_sites parse_url ss now st)
  unfolding reload_sites
  reload_sites-Routed [] now st routed = routed
  reload_sites-Routed (s ∷ ss) now st routed =
      reload_sites-Routed ss now (add_runtime s (build_runtime parse_url s now) st)
        (built-Routed s now (build_runtime parse_url s now) st refl routed)

  -- After a reload, every domain that is routed leads to a runtime that is there, and it is that of
  -- an enabled site which lists this very domain.
  pub reload-Serves :
      (r : Router) (sites : List Site) (now : ℕ) (name : Text) (h : ℕ)
      → lookup name (reload parse_url r sites now).runtimes ≡ some h
      → Serves (reload parse_url r sites now).heap name h
  unfolding reload lookup
  reload-Serves r sites now name h e =
      reload_sites-Routed sites now (record { heap = r.heap; next = [] })
        (λ n k f. absurd (ground arith)) name h e
