-- ===== src/Proxy/Pool/Turns.antt =====
-- internal/proxy/upstream.go: the order in which the upstreams are taken.
use orxies.Prelude.{
  ℕ, zero, suc, ◌+◌, ◌-◌, ◌%◌, ◌≤◌, ◌<◌, ◌≡◌, refl, ap, false, List, [], ◌∷◌, Option, length,
  get_elem?, is_empty, arith,
}
use orxies.Proxy.Pool.{Url, Pool, u64_size, next_upstream}

-- The answers of `n` calls in a row.
unfoldable pub picks : ℕ → Pool → List (Option Url)
picks zero p = []
picks (suc n) p = let (p', u) = next_upstream p in u ∷ picks n p'

-- The upstreams from place `i` on, round and round.
abbrev pub in_turn : ℕ → List Url → ℕ → List (Option Url)
in_turn zero us i = []
in_turn (suc n) us i = get_elem? us (i % length us) ∷ in_turn n us (suc i)

not_empty : (us : List Url) → 1 ≤ length us → is_empty us ≡ false
not_empty [] h = absurd (omega arith)
not_empty (u ∷ us) h = refl

next_upstream-turn :
    (p : Pool)
    → 1 ≤ length p.upstreams
    → suc p.next < u64_size
    → next_upstream p
      ≡ (record p { next = suc p.next }, get_elem? p.upstreams (p.next % length p.upstreams))
unfolding next_upstream
next_upstream-turn p some_up small =
    let up : (p.next + 1) % u64_size ≡ suc p.next = omega arith in
    let down : (suc p.next + (u64_size - 1)) % u64_size ≡ p.next = omega arith in
    let busy : is_empty p.upstreams ≡ false = not_empty p.upstreams some_up in
    rw (busy, up, down) refl

-- The upstreams take turns: calls in a row give them in the order of the list, round and round
-- from where the counter stands, as long as it does not wrap.
pub picks-in_turn :
    (n : ℕ) (p : Pool)
    → 1 ≤ length p.upstreams
    → p.next + n < u64_size
    → picks n p ≡ in_turn n p.upstreams p.next
unfolding picks
picks-in_turn zero p some_up small = refl
picks-in_turn (suc n) p some_up small =
    let one = next_upstream-turn p some_up (omega arith) in
    rw one (
      ap (λ r. get_elem? p.upstreams (p.next % length p.upstreams) ∷ r)
        (picks-in_turn n (record p { next = suc p.next }) some_up (omega arith)))
