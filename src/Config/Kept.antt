-- ===== src/Config/Kept.antt =====
-- internal/config/config.go: what Validate leaves of a site that it accepts.
use orxies.Prelude.{
  ◌≡◌, List, Option, none, some, Text, is_empty, trim_space, arith, Bool-cases, inl, inr,
}
use orxies.Config.{Site, SiteError, valid_hostname, check_aliases, after_aliases, validate}

-- The site is accepted with its spaces trimmed and is otherwise served as it stands.
pub record Kept (s : Site) (r : Site × Option SiteError) : Type 0 where
  pub domain : r.0.domain ≡ trim_space s.domain
  pub upstreams : r.0.upstreams ≡ s.upstreams
  pub enabled : r.0.enabled ≡ s.enabled
  pub filename : r.0.filename ≡ s.filename
  pub root : r.1 ≡ none → r.0.root ≡ trim_space s.root

module _ (parse_host : Text → Option Text) where
  after_aliases-Kept :
      (s : Site) (r : List Text × Option Text)
      → Kept s (after_aliases parse_host (record s { domain = trim_space s.domain }) r)
  after_aliases-Kept s (names, some a) = ground arith
  after_aliases-Kept s (names, none) = ground arith

  pub validate-Kept : (s : Site) → Kept s (validate parse_host s)
  unfolding validate
  validate-Kept s =
      let t = record s { domain = trim_space s.domain } in
      elim (Bool-cases (is_empty t.domain)) [
        | inl bare ↦ rw bare (ground arith)
        | inr named ↦ elim (Bool-cases (valid_hostname t.domain)) [
          | inr bad ↦ rw (named, bad) (ground arith)
          | inl ok ↦ rw (named, ok) (after_aliases-Kept s (check_aliases parse_host t.aliases))
        ]
      ]
