-- ===== src/Security/Allowlist.antt =====
-- internal/security/security.go: whom the allowlist of the admin UI lets in.
use orxies.Prelude.{
  ◌≡◌, refl, sym, Bool, true, false, ◌||◌, List, [], ◌∷◌, Option, none, some, if◌then◌else◌, Text,
  is_empty, trim_space, contains, codes, ◌++◌, ◌&&◌, Bool-cases, inl, inr, arith, ap, ◌∙◌,
}
use orxies.Security.{parse_cidrs, add_net, with_mask, ip_allowed, any_contains, peer_host}

or_if : (a b : Bool) → (if a then true else b) ≡ (a || b)
or_if true b = refl
or_if false b = refl

with_mask-net : (it : Text) → contains it (codes "/") ≡ true → with_mask it ≡ it
with_mask-net it net = rw net refl

pub with_mask-v6 :
    (it : Text)
    → contains it (codes "/") ≡ false
    → contains it (codes ":") ≡ true
    → with_mask it ≡ it ++ codes "/128"
with_mask-v6 it bare v6 = rw (bare, v6) refl

pub with_mask-v4 :
    (it : Text)
    → contains it (codes "/") ≡ false
    → contains it (codes ":") ≡ false
    → with_mask it ≡ it ++ codes "/32"
with_mask-v4 it bare v4 = rw (bare, v4) refl

module _ {IpNet Ip : Type 0} (parse_cidr : Text → Option IpNet) (parse_ip : Text → Option Ip)
    (split_host : Text → Option Text) (contains_ip : IpNet → Ip → Bool)
    (same_ip : Ip → Ip → Bool) where
  abbrev pub net_has : Option IpNet → Option Ip → Bool
  net_has none o = false
  net_has (some n) none = false
  net_has (some n) (some ip) = contains_ip n ip

  abbrev pub is_one : Option Ip → Option Ip → Bool
  is_one none o = false
  is_one (some a) none = false
  is_one (some a) (some ip) = same_ip a ip

  -- An entry of the configuration covers an address: it is a network in CIDR notation that has the
  -- address, or is that very address. A blank one covers none.
  abbrev pub entry_covers : Text → Option Ip → Bool
  entry_covers it o =
      if is_empty it
      then false
      else if contains it (codes "/")
      then net_has (parse_cidr it) o
      else is_one (parse_ip it) o

  abbrev pub covers : Text → Option Ip → Bool
  covers it o = entry_covers (trim_space it) o

  abbrev pub any_covers : List Text → Option Ip → Bool
  any_covers [] o = false
  any_covers (it ∷ items) o = covers it o || any_covers items o

  abbrev pub all_blank : List Text → Bool
  all_blank [] = true
  all_blank (it ∷ items) = is_empty (trim_space it) && all_blank items

  add_net-some :
      (n : Option IpNet) (rest : Option (List IpNet)) (nets : List IpNet)
      → add_net parse_cidr n rest ≡ some nets
      → (m : IpNet) × (ns : List IpNet) × (n ≡ some m) × (rest ≡ some ns) × (m ∷ ns ≡ nets)
  add_net-some none rest nets h = ground arith
  add_net-some (some n) none nets h = ground arith
  add_net-some (some n) (some ns) nets h = (n, ns, refl, refl, ground arith)

  any_contains-cons :
      (m : IpNet) (ns : List IpNet) (o : Option Ip)
      → any_contains parse_ip split_host contains_ip (m ∷ ns) o
        ≡ (net_has (some m) o || any_contains parse_ip split_host contains_ip ns o)
  any_contains-cons m ns none = refl
  any_contains-cons m ns (some ip) = refl

  -- What net.ParseCIDR documents: an address of four bytes with 32 bits of mask, and one of sixteen
  -- with 128, is the network of that address alone.
  abbrev pub IsHost : Text → Text → Type 0
  IsHost it bits =
      (n : IpNet)
      → parse_cidr (it ++ bits) ≡ some n
      → (o : Option Ip) → net_has (some n) o ≡ is_one (parse_ip it) o

  whole :
      (it : Text) (m : IpNet)
      → contains it (codes "/") ≡ true
      → parse_cidr (with_mask it) ≡ some m
      → parse_cidr it ≡ some m
  whole it m net found = ap parse_cidr (sym (with_mask-net it net)) ∙ found

  masked_v6 :
      (it : Text) (m : IpNet)
      → contains it (codes "/") ≡ false
      → contains it (codes ":") ≡ true
      → parse_cidr (with_mask it) ≡ some m
      → parse_cidr (it ++ codes "/128") ≡ some m
  masked_v6 it m bare v6 found = ap parse_cidr (sym (with_mask-v6 it bare v6)) ∙ found

  masked_v4 :
      (it : Text) (m : IpNet)
      → contains it (codes "/") ≡ false
      → contains it (codes ":") ≡ false
      → parse_cidr (with_mask it) ≡ some m
      → parse_cidr (it ++ codes "/32") ≡ some m
  masked_v4 it m bare v4 found = ap parse_cidr (sym (with_mask-v4 it bare v4)) ∙ found

  module _
      (host_v4 : (it : Text)
        → contains it (codes "/") ≡ false
        → contains it (codes ":") ≡ false
        → IsHost it (codes "/32"))
      (host_v6 : (it : Text)
        → contains it (codes "/") ≡ false
        → contains it (codes ":") ≡ true
        → IsHost it (codes "/128")) where
    entry_covers-with_mask :
        (it : Text) (m : IpNet) (o : Option Ip)
        → is_empty it ≡ false
        → parse_cidr (with_mask it) ≡ some m
        → entry_covers it o ≡ net_has (some m) o
    entry_covers-with_mask it m o full found = elim (Bool-cases (contains it (codes "/"))) [
      | inl net ↦ rw (full, net) (ap (λ x. net_has x o) (whole it m net found))
      | inr bare ↦ elim (Bool-cases (contains it (codes ":"))) [
        | inl v6 ↦ rw (full, bare) (sym (host_v6 it bare v6 m (masked_v6 it m bare v6 found) o))
        | inr v4 ↦ rw (full, bare) (sym (host_v4 it bare v4 m (masked_v4 it m bare v4 found) o))
      ]
    ]

    parse_cidrs-covers :
        (items : List Text) (nets : List IpNet) (o : Option Ip)
        → parse_cidrs parse_cidr items ≡ some nets
        → (any_contains parse_ip split_host contains_ip nets o ≡ any_covers items o)
          × (is_empty nets ≡ all_blank items)
    unfolding parse_cidrs
    parse_cidrs-covers [] nets none h = ground arith
    parse_cidrs-covers [] nets (some ip) h = ground arith
    parse_cidrs-covers (it ∷ items) nets o h = elim (Bool-cases (is_empty (trim_space it))) [
      | inl blank ↦
          let rest : parse_cidrs parse_cidr items ≡ some nets = ground arith in
          let (has, empty) = parse_cidrs-covers items nets o rest in ground arith
      | inr full ↦
          let n = parse_cidr (with_mask (trim_space it)) in
          let added : add_net parse_cidr n (parse_cidrs parse_cidr items) ≡ some nets =
            ground arith in
          let (m, ns, found, rest, same) =
            add_net-some n (parse_cidrs parse_cidr items) nets added in
          let (later, blanks) = parse_cidrs-covers items ns o rest in
          let first = any_contains-cons m ns o in
          let own : covers it o ≡ net_has (some m) o =
            entry_covers-with_mask (trim_space it) m o full found in
          (
            ap (λ x. any_contains parse_ip split_host contains_ip x o) (sym same)
                ∙ first
                ∙ ap (λ x. net_has (some m) o || x) later
                ∙ ap (λ x. x || any_covers items o) (sym own),
            ap is_empty (sym same) ∙ rw full refl,
          )
    ]

    -- The allowlist of the admin UI lets a peer in if its list is empty or all blank, or if one
    -- entry of it is the address of the peer or a network that has it, and no other peer.
    pub ip_allowed-covers :
        (items : List Text) (nets : List IpNet) (remote_addr : Text)
        → parse_cidrs parse_cidr items ≡ some nets
        → ip_allowed parse_ip split_host contains_ip nets remote_addr ≡ (
            all_blank items
            || any_covers items (parse_ip (peer_host parse_ip split_host contains_ip remote_addr)))
    unfolding ip_allowed
    ip_allowed-covers items nets remote_addr h =
        let o = parse_ip (peer_host parse_ip split_host contains_ip remote_addr) in
        let (has, blank) = parse_cidrs-covers items nets o h in
        ap (λ b. if b then true else any_contains parse_ip split_host contains_ip nets o) blank
        ∙ ap (λ b. if all_blank items then true else b) has
        ∙ or_if (all_blank items) (any_covers items o)
