-- ===== src/Config/Index.antt =====
-- internal/config/config.go: Store, the list of sites and its index by domain.
use orxies.Prelude.{
  ◌≡◌, refl, Bool, true, false, ◌||◌, List, [], ◌∷◌, Option, none, some, ap, if◌then◌else◌, Text,
  text_eq, text_key, to_lower, cut_last, cut_last-none, cut_last-append, has_byte, ◌++◌, lookup,
  insert, lookup-insert, ◌∙◌, arith,
}
use orxies.Config.{Site, all_domains, colon}

pub record Store : Type 0 where
  pub sites : List Site
  pub by_domain : List (Text × Site)

abbrev pub new_store : Store
new_store = record { sites = []; by_domain = [] }

-- The inner loop of `Replace`.
unfoldable pub index_domains : List Text → Site → List (Text × Site) → List (Text × Site)
index_domains [] s idx = idx
index_domains (d ∷ ds) s idx = index_domains ds s (insert (to_lower d) s idx)

unfoldable pub index_sites : List Site → List (Text × Site) → List (Text × Site)
unfolding index_domains
index_sites [] idx = idx
index_sites (s ∷ ss) idx =
    index_sites ss (if s.enabled then index_domains (all_domains s) s idx else idx)

unfoldable pub replace : Store → List Site → Store
unfolding index_sites
replace st sites = record { sites = sites; by_domain = index_sites sites [] }

-- The host as it is looked up: its port dropped, in lower case.
unfoldable pub canonical_host : Text → Text
canonical_host host =
    to_lower (elim (cut_last host colon) [ none ↦ host | some (before, after) ↦ before ])

unfoldable pub lookup_host : Store → Text → Option Site
unfolding canonical_host
lookup_host st host = lookup (canonical_host host) st.by_domain

-- A site names a host if one of its domains is it, whatever the case of its letters.
abbrev pub names : List Text → Text → Bool
names [] h = false
names (d ∷ ds) h = text_eq (to_lower d) h || names ds h

-- The last enabled site of a list that names a host, or `d` if there is none.
abbrev pub last_named : List Site → Text → Option Site → Option Site
last_named [] h d = d
last_named (s ∷ ss) h d =
    last_named ss h (if s.enabled then (if names (all_domains s) h then some s else d) else d)

lookup-index_domains :
    (ds : List Text) (s : Site) (idx : List (Text × Site)) (h : Text)
    → lookup h (index_domains ds s idx) ≡ (if names ds h then some s else lookup h idx)
unfolding index_domains
lookup-index_domains [] s idx h = refl
lookup-index_domains (d ∷ ds) s idx h = ground (
  arith,
  lookup-index_domains ds s (insert (to_lower d) s idx) h,
  lookup-insert (to_lower d) h s idx,
)

indexed_if :
    (on : Bool) (s : Site) (idx : List (Text × Site)) (h : Text)
    → lookup h (if on then index_domains (all_domains s) s idx else idx)
      ≡ (if on then (if names (all_domains s) h then some s else lookup h idx) else lookup h idx)
indexed_if true s idx h = lookup-index_domains (all_domains s) s idx h
indexed_if false s idx h = refl

lookup-index_sites :
    (ss : List Site) (idx : List (Text × Site)) (h : Text)
    → lookup h (index_sites ss idx) ≡ last_named ss h (lookup h idx)
unfolding index_sites
lookup-index_sites [] idx h = refl
lookup-index_sites (s ∷ ss) idx h =
    lookup-index_sites ss (if s.enabled then index_domains (all_domains s) s idx else idx) h
    ∙ ap (last_named ss h) (indexed_if s.enabled s idx h)

lookup_host-canonical :
    (st : Store) (sites : List Site) (host : Text)
    → lookup_host (replace st sites) host ≡ last_named sites (canonical_host host) none
unfolding lookup_host replace lookup
lookup_host-canonical st sites host = lookup-index_sites sites [] (canonical_host host)

-- What is left of the header at what is before its last colon, and the port.
abbrev before_port : Text → Option (Text × Text) → Text
before_port host none = host
before_port host (some (before, after)) = before

-- A Host header, with a port or without.
abbrev pub header : Text → Text → Bool → Text
header host port true = host ++ (colon ∷ port)
header host port false = host

cut_last-header :
    (host port : Text) (ported : Bool)
    → has_byte (if ported then port else host) colon ≡ false
    → before_port (header host port ported) (cut_last (header host port ported) colon) ≡ host
cut_last-header host port true h =
    ap (before_port (host ++ (colon ∷ port))) (cut_last-append colon host port h)
cut_last-header host port false h = ap (before_port host) (cut_last-none colon host h)

-- After a reload, the site for a Host header is the last enabled one of the list that names the
-- host, the case of letters ignored on both sides, whether the header has a port behind a colon,
-- which has no other colon in it, or is a host without a colon. No other site is found.
pub lookup_host-replace :
    (st : Store) (sites : List Site) (host port : Text) (ported : Bool)
    → has_byte (if ported then port else host) colon ≡ false
    → lookup_host (replace st sites) (header host port ported)
      ≡ last_named sites (to_lower host) none
unfolding canonical_host
lookup_host-replace st sites host port ported h =
    lookup_host-canonical st sites (header host port ported)
    ∙ ap (λ name. last_named sites (to_lower name) none) (cut_last-header host port ported h)
