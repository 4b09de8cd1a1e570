-- ===== src/Config/Hostnames.antt =====
-- internal/config/config.go: what `Validate` and `validHostname` let through as a domain.
use orxies.Prelude.{
  ℕ, ◌≡◌, refl, ap, ◌∙◌, Bool, true, ◌&&◌, ◌||◌, List, [], ◌∷◌, Option, none, some, ◌==◌, Text,
  text_eq_iff, is_empty, trim_left, trim_right, trim_space, trim_suffix, split, onto_first, every,
  arith, Bool-cases, inl, inr,
}
use mathlib.Core.Path.{subst}
use orxies.Config.{
  Site, all_domains, dot, is_label_byte, label_bytes, valid_label, valid_labels, valid_trimmed,
  valid_hostname, check_aliases, check_rest, after_aliases, validate,
}

-- A letter, a digit, a hyphen or a dot.
abbrev pub is_host_byte : ℕ → Bool
is_host_byte c = is_label_byte c || c == dot

abbrev pub all_safe : List Text → Bool
all_safe [] = true
all_safe (d ∷ ds) = every is_host_byte d && all_safe ds

abbrev labels_bytes : List Text → Bool
labels_bytes [] = true
labels_bytes (l ∷ ls) = label_bytes l && labels_bytes ls

valid_labels-bytes : (ls : List Text) → valid_labels ls ≡ true → labels_bytes ls ≡ true
unfolding valid_labels valid_label
valid_labels-bytes [] h = refl
valid_labels-bytes (l ∷ ls) h = ground (arith, valid_labels-bytes ls)

onto_first-bytes :
    (a : ℕ) (ls : List Text)
    → labels_bytes (onto_first a ls) ≡ true
    → (is_label_byte a ≡ true) × (labels_bytes ls ≡ true)
onto_first-bytes a [] h = ground arith
onto_first-bytes a (l ∷ ls) h = ground arith

split-bytes : (s : Text) → labels_bytes (split s dot) ≡ true → every is_host_byte s ≡ true
split-bytes [] h = refl
split-bytes (a ∷ s) h = elim (Bool-cases (a == dot)) [
  | inl e ↦
      let rest : labels_bytes (split s dot) ≡ true = ground arith in
      ground (arith, split-bytes s rest)
  | inr e ↦
      let (own, rest) = onto_first-bytes a (split s dot) (ground arith) in
      ground (arith, split-bytes s rest)
]

trim_suffix-dot :
    (s : Text) → every is_host_byte (trim_suffix s (dot ∷ [])) ≡ true → every is_host_byte s ≡ true
trim_suffix-dot [] h = refl
trim_suffix-dot (a ∷ s) h = ground (arith, trim_suffix-dot s, text_eq_iff (a ∷ s) (dot ∷ []))

trim_right_idem : (s : Text) → trim_right (trim_right s) ≡ trim_right s
trim_right_idem [] = refl
trim_right_idem (a ∷ s) = ground (arith, trim_right_idem s)

trim_left_solid : (s : Text) → trim_left (trim_right (trim_left s)) ≡ trim_right (trim_left s)
trim_left_solid [] = refl
trim_left_solid (a ∷ s) = ground (arith, trim_left_solid s)

trim_space_idem : (s : Text) → trim_space (trim_space s) ≡ trim_space s
trim_space_idem s = ap trim_right (trim_left_solid s) ∙ trim_right_idem (trim_left s)

valid_trimmed-safe : (t : Text) → valid_trimmed t ≡ true → every is_host_byte t ≡ true
unfolding valid_trimmed
valid_trimmed-safe t h = split-bytes t (valid_labels-bytes (split t dot) (ground arith))

valid_hostname-safe :
    (s : Text) → valid_hostname (trim_space s) ≡ true → every is_host_byte (trim_space s) ≡ true
unfolding valid_hostname
valid_hostname-safe s h =
    subst (λ t. every is_host_byte t ≡ true) (trim_space_idem s)
      (trim_suffix-dot (trim_space (trim_space s))
        (valid_trimmed-safe (trim_suffix (trim_space (trim_space s)) (dot ∷ [])) h))

module _ (parse_host : Text → Option Text) where
  check_aliases-safe :
      (names : List Text)
      → (check_aliases parse_host names).1 ≡ none
      → all_safe (check_aliases parse_host names).0 ≡ true
  unfolding check_aliases
  check_aliases-safe [] h = refl
  check_aliases-safe (a ∷ names) h = elim (Bool-cases (valid_hostname (trim_space a))) [
    | inl ok ↦
        let rest : (check_aliases parse_host names).1 ≡ none = ground arith in
        ground (arith, check_aliases-safe names rest, valid_hostname-safe a ok)
    | inr bad ↦ ground arith
  ]

  check_rest-domains : (s : Site) → all_domains (check_rest parse_host s).0 ≡ all_domains s
  check_rest-domains s = ground arith

  after_aliases-domains :
      (s : Site) (checked : List Text × Option Text)
      → (after_aliases parse_host s checked).1 ≡ none
      → (checked.1 ≡ none)
        × (all_domains (after_aliases parse_host s checked).0 ≡ s.domain ∷ checked.0)
  after_aliases-domains s (names, some a) h = ground arith
  after_aliases-domains s (names, none) h =
      (refl, check_rest-domains (record s { aliases = names }))

  -- A site that `Validate` accepts names only domains of letters, digits, hyphens and dots: no
  -- slash, no port, no white space and no control byte gets past it.
  pub validate-safe :
      (site : Site)
      → (validate parse_host site).1 ≡ none
      → all_safe (all_domains (validate parse_host site).0) ≡ true
  unfolding validate
  validate-safe site h = elim (Bool-cases (is_empty (trim_space site.domain))) [
    | inl e ↦ ground arith
    | inr ne ↦ elim (Bool-cases (valid_hostname (trim_space site.domain))) [
      | inr bad ↦ ground arith
      | inl ok ↦
          let s : Site = record site { domain = trim_space site.domain } in
          let checked = check_aliases parse_host site.aliases in
          let accepted : (after_aliases parse_host s checked).1 ≡ none = ground arith in
          let (fine, same) = after_aliases-domains s checked accepted in
          let safe : all_safe (trim_space site.domain ∷ checked.0) ≡ true =
            ground
              (arith, valid_hostname-safe site.domain ok, check_aliases-safe site.aliases fine) in
          let reached : all_safe (all_domains (after_aliases parse_host s checked).0) ≡ true =
            ap all_safe same ∙ safe in
          ground (arith, reached)
    ]
  ]
