-- ===== src/Config.antt =====
-- internal/config/config.go: the schema of a site and its validation.
-- What `net/url` parses is a parameter: `parse_host` gives the host of a URL, or `none` for an
-- error. A map of headers is an association list. The YAML decoder and the file system are not
-- modelled.
pub mod Hostnames
pub mod Files
pub mod Index
pub mod Kept
mod Tests
use orxies.Prelude.{
  ℕ, ◌+◌, Bool, true, false, ◌&&◌, ◌||◌, not, List, [], ◌∷◌, ◌++◌, Option, none, some, leb, ltb,
  ◌==◌, if◌then◌else◌, length, get_elem?, Text, codes, is_empty, trim_space, trim_suffix, split,
  contains, cut_last,
}
use orxies.Prelude.Int.{ℤ, pos, ltb_ℤ}

pub record TlsConfig : Type 0 where
  pub auto : Bool
  pub cert_file : Text
  pub key_file : Text

pub record RateLimitConfig : Type 0 where
  pub enabled : Bool
  pub rps : ℤ
  pub burst : ℤ
  pub global_rps : ℤ
  pub global_burst : ℤ
  pub max_in_flight : ℤ

pub record Site : Type 0 where
  pub filename : Text
  pub domain : Text
  pub aliases : List Text
  pub upstreams : List Text
  pub root : Text
  pub spa : Bool
  pub enabled : Bool
  pub tls : TlsConfig
  pub http_to_https : Bool
  pub web_socket : Bool
  pub block_common_exploits : Bool
  pub rate_limit : RateLimitConfig
  pub custom_headers : List (Text × Text)

abbrev pub all_domains : Site → List Text
all_domains s = s.domain ∷ s.aliases

pub data SiteError : Type 0 where
  domain_required : SiteError
  invalid_domain : Text → SiteError
  invalid_alias : Text → SiteError
  invalid_root : Text → SiteError
  no_upstream : SiteError
  invalid_upstream : Text → SiteError
  rps_not_positive : SiteError
  burst_negative : SiteError

abbrev pub dot : ℕ
dot = 46

abbrev pub hyphen : ℕ
hyphen = 45

abbrev pub colon : ℕ
colon = 58

-- The bytes that `validHostname` lets a label have.
abbrev pub is_label_byte : ℕ → Bool
is_label_byte c =
    (leb 97 c && leb c 122) || (leb 65 c && leb c 90) || (leb 48 c && leb c 57) || c == hyphen

abbrev pub label_bytes : Text → Bool
label_bytes [] = true
label_bytes (c ∷ l) = is_label_byte c && label_bytes l

abbrev pub first_is : ℕ → Text → Bool
first_is c [] = false
first_is c (a ∷ l) = a == c

abbrev pub last_is : ℕ → Text → Bool
last_is c [] = false
last_is c (a ∷ []) = a == c
last_is c (a ∷ b ∷ l) = last_is c (b ∷ l)

unfoldable pub valid_label : Text → Bool
valid_label l =
    not (is_empty l || ltb 63 (length l))
    && not (first_is hyphen l || last_is hyphen l)
    && label_bytes l

unfoldable pub valid_labels : List Text → Bool
unfolding valid_label
valid_labels [] = true
valid_labels (l ∷ ls) = valid_label l && valid_labels ls

-- `validHostname` behind its trimming.
unfoldable pub valid_trimmed : Text → Bool
unfolding valid_labels
valid_trimmed h =
    not (is_empty h || ltb 253 (length h))
    && not (ltb (length (split h dot)) 2)
    && valid_labels (split h dot)

unfoldable pub valid_hostname : Text → Bool
unfolding valid_trimmed
valid_hostname h = valid_trimmed (trim_suffix (trim_space h) (dot ∷ []))

abbrev split_host_port : Text → Option (Text × Text)
split_host_port s = cut_last s colon

module _ (parse_host : Text → Option Text) where
  -- The host of a URL must not be empty.
  abbrev host_given : Option Text → Bool
  host_given none = false
  host_given (some host) = not (is_empty host)

  abbrev both_given : Option (Text × Text) → Bool
  both_given none = false
  both_given (some (host, port)) = not (is_empty host || is_empty port)

  unfoldable pub valid_upstream : Text → Bool
  valid_upstream s =
      if contains s (codes "://")
      then host_given (parse_host s)
      else if not (contains s (colon ∷ []))
      then false
      else both_given (split_host_port s)

  -- The aliases after the loop, trimmed up to the first bad one, and that one.
  unfoldable pub check_aliases : List Text → List Text × Option Text
  unfolding valid_hostname
  check_aliases [] = ([], none)
  check_aliases (a ∷ names) =
      let (names', bad) = check_aliases names in
      if valid_hostname (trim_space a)
      then (trim_space a ∷ names', bad)
      else (trim_space a ∷ names, some a)

  unfoldable pub check_upstreams : List Text → Option Text
  unfolding valid_upstream
  check_upstreams [] = none
  check_upstreams (u ∷ us) = if valid_upstream u then check_upstreams us else some u

  unfoldable pub check_backend : Site → Option SiteError
  unfolding check_upstreams
  check_backend s =
      if not (is_empty s.root)
      then if contains s.root (codes "..") then some (SiteError.invalid_root s.root) else none
      else if is_empty s.upstreams
      then some SiteError.no_upstream
      else elim (check_upstreams s.upstreams) [
        | none ↦ none
        | some u ↦ some (SiteError.invalid_upstream u)
      ]

  abbrev check_rates : RateLimitConfig → Option SiteError
  check_rates r =
      if not r.enabled
      then none
      else if not (ltb_ℤ (pos 0) r.rps)
      then some SiteError.rps_not_positive
      else if ltb_ℤ r.burst (pos 0)
      then some SiteError.burst_negative
      else none

  -- `Validate` from its check of the root on. It stores the trimmed root in every case.
  abbrev check_rest : Site → Site × Option SiteError
  check_rest s =
      let s' = record s { root = trim_space s.root } in
      elim (check_backend s') [ some e ↦ (s', some e) | none ↦ (s', check_rates s'.rate_limit) ]

  abbrev after_aliases : Site → List Text × Option Text → Site × Option SiteError
  after_aliases s (names, some a) = (record s { aliases = names }, some (SiteError.invalid_alias a))
  after_aliases s (names, none) = check_rest (record s { aliases = names })

  -- The site is changed in place, also where an error comes back.
  unfoldable pub validate : Site → Site × Option SiteError
  unfolding valid_hostname check_aliases check_backend
  validate site =
      let s = record site { domain = trim_space site.domain } in
      if is_empty s.domain
      then (s, some SiteError.domain_required)
      else if not (valid_hostname s.domain)
      then (s, some (SiteError.invalid_domain s.domain))
      else after_aliases s (check_aliases s.aliases)
