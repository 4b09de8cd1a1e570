-- ===== src/Proxy/Pool.antt =====
-- internal/proxy/upstream.go: the upstreams of a site, taken in turn.
-- What `net/url` parses is a parameter, `parse_url`. The counter is a uint64, written mod 2 ^ 64.
pub mod Turns
mod Tests
use orxies.Prelude.{
  ℕ, ◌+◌, ◌-◌, ◌%◌, ◌^◌, Bool, true, false, List, [], ◌∷◌, ◌++◌, Option, none, some, if◌then◌else◌,
  length, get_elem?, Text, codes, contains, is_empty,
}

pub record Url : Type 0 where
  pub scheme : Text
  pub host : Text
  pub path : Text

pub record Pool : Type 0 where
  pub upstreams : List Url
  pub next : ℕ

abbrev pub u64_size : ℕ
u64_size = 2 ^ 64

module _ (parse_url : Text → Option Url) where
  abbrev pub parse_upstream : Text → Option Url
  parse_upstream raw =
      parse_url (if contains raw (codes "://") then raw else codes "http://" ++ raw)

  abbrev add_url : Option Url → Option (List Url) → Option (List Url)
  add_url none rest = none
  add_url (some u) none = none
  add_url (some u) (some us) = some (u ∷ us)

  abbrev pub parse_upstreams : List Text → Option (List Url)
  parse_upstreams [] = some []
  parse_upstreams (raw ∷ raws) = add_url (parse_upstream raw) (parse_upstreams raws)

  -- `none` for an error.
  abbrev pub new_pool : List Text → Option Pool
  new_pool raws = elim (parse_upstreams raws) [
    | none ↦ none
    | some us ↦ some (record { upstreams = us; next = 0 })
  ]

-- `Next`: `Add(1) - 1` is the count before the call, as a uint64.
unfoldable pub next_upstream : Pool → Pool × Option Url
next_upstream p =
    if is_empty p.upstreams
    then (p, none)
    else let added = (p.next + 1) % u64_size in
      let n = (added + (u64_size - 1)) % u64_size in
      (record p { next = added }, get_elem? p.upstreams (n % length p.upstreams))

abbrev pub size : Pool → ℕ
size p = length p.upstreams
