-- ===== src/Security.antt =====
-- internal/security/security.go: the headers, the address allowlist and the body cap.
-- Addresses and networks are those of Go's package net, which are parameters: `parse_cidr`,
-- `parse_ip`, `split_host` and `contains_ip`.
pub mod Edge
pub mod Allowlist
mod Tests
use orxies.Prelude.{
  ℕ, Bool, true, false, ◌&&◌, ◌||◌, not, List, [], ◌∷◌, ◌++◌, Option, none, some, leb,
  if◌then◌else◌, length, Text, text_key, codes, is_empty, trim_space, contains, insert, take, ltb,
}

abbrev pub HeaderMap : Type 0
HeaderMap = List (Text × Text)

abbrev pub csp : Text
csp =
    codes "default-src 'self'; "
    ++ codes "base-uri 'none'; "
    ++ codes "frame-ancestors 'none'; "
    ++ codes "form-action 'self'; "
    ++ codes "object-src 'none'; "
    ++ codes "img-src 'self' data:; "
    ++ codes "style-src 'self'; "
    ++ codes "script-src 'self'; "
    ++ codes "font-src 'self'; "
    ++ codes "connect-src 'self'"

-- `hd.Set` for each pair in turn.
unfoldable pub set_all : HeaderMap → HeaderMap → HeaderMap
set_all [] hd = hd
set_all ((k, v) ∷ kvs) hd = set_all kvs (insert k v hd)

abbrev pub admin_headers : HeaderMap
admin_headers =
    (codes "Content-Security-Policy", csp)
    ∷ (codes "X-Content-Type-Options", codes "nosniff")
    ∷ (codes "X-Frame-Options", codes "DENY")
    ∷ (codes "Referrer-Policy", codes "no-referrer")
    ∷ (
      codes "Permissions-Policy",
      codes "geolocation=(), microphone=(), camera=(), interest-cohort=()",
    )
    ∷ (codes "Cross-Origin-Opener-Policy", codes "same-origin")
    ∷ (codes "Cross-Origin-Resource-Policy", codes "same-origin")
    ∷ []

abbrev pub transport_security : Text
transport_security = codes "Strict-Transport-Security"

-- The response headers that `Headers` hands on to the handler it wraps.
unfoldable pub headers : Bool → HeaderMap → HeaderMap
unfolding set_all
headers hsts hd =
    let hd' = set_all admin_headers hd in
    if hsts
    then insert transport_security (codes "max-age=31536000; includeSubDomains") hd'
    else hd'

abbrev pub edge_headers : HeaderMap
edge_headers =
    (codes "X-Content-Type-Options", codes "nosniff")
    ∷ (codes "X-Frame-Options", codes "SAMEORIGIN")
    ∷ (codes "Referrer-Policy", codes "strict-origin-when-cross-origin")
    ∷ (
      codes "Permissions-Policy",
      codes "geolocation=(self), microphone=(), camera=(), payment=(), usb=()",
    )
    ∷ (codes "X-Permitted-Cross-Domain-Policies", codes "none")
    ∷ []

unfoldable pub merge_edge_headers : HeaderMap → HeaderMap
unfolding set_all
merge_edge_headers custom = set_all custom edge_headers

abbrev pub edge_hsts : Bool → Text
edge_hsts is_tls = if not is_tls then [] else codes "max-age=15552000"

-- An entry with its mask: a bare address gets that of one host.
abbrev pub with_mask : Text → Text
with_mask it =
    if contains it (codes "/")
    then it
    else if contains it (codes ":")
    then it ++ codes "/128"
    else it ++ codes "/32"

module _ {IpNet : Type 0} (parse_cidr : Text → Option IpNet) where
  -- The network of an entry, before that of the entries after it.
  abbrev pub add_net : Option IpNet → Option (List IpNet) → Option (List IpNet)
  add_net none rest = none
  add_net (some n) none = none
  add_net (some n) (some ns) = some (n ∷ ns)

  unfoldable pub parse_cidrs : List Text → Option (List IpNet)
  parse_cidrs [] = some []
  parse_cidrs (it ∷ items) =
      let rest = parse_cidrs items in
      if is_empty (trim_space it)
      then rest
      else add_net (parse_cidr (with_mask (trim_space it))) rest

module _ {IpNet Ip : Type 0} (parse_ip : Text → Option Ip) (split_host : Text → Option Text)
    (contains_ip : IpNet → Ip → Bool) where
  abbrev pub any_contains : List IpNet → Option Ip → Bool
  any_contains ns none = false
  any_contains [] (some ip) = false
  any_contains (n ∷ ns) (some ip) = contains_ip n ip || any_contains ns (some ip)

  abbrev pub peer_host : Text → Text
  peer_host remote_addr = elim (split_host remote_addr) [ none ↦ remote_addr | some host ↦ host ]

  -- Whether `IPAllowlist` lets a request through to the handler it wraps.
  unfoldable pub ip_allowed : List IpNet → Text → Bool
  ip_allowed allow remote_addr =
      if is_empty allow then true else any_contains allow (parse_ip (peer_host remote_addr))

-- What a handler can read of a body under `MaxBody`: its first n bytes, and whether there was more.
abbrev pub max_body : ℕ → Text → Text × Bool
max_body n body = (take n body, ltb n (length body))
