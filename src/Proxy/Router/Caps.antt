-- ===== src/Proxy/Router/Caps.antt =====
-- internal/proxy/ratelimit.go: Allow leaves the cap of a site alone, and Acquire keeps it.
use orxies.Prelude.{
  ℕ, ◌≡◌, refl, sym, ap, ◌∙◌, ◌+◌, leb, ltb, length, lookup, text_key, Bool, true, false, ◌||◌, not,
  Option, none, some, Text, if◌then◌else◌, arith, Bool-cases, Option-cases, inl, inr,
}
use orxies.Prelude.Int.{ℤ, pos, ltb_ℤ}
use orxies.Proxy.Limiter.{
  Limiter, Release, noop, give_back, allow, allow_global, allow_per_ip, maybe_sweep, sweep_locked,
  sweep_interval, max_buckets, then_per_ip, TokenBucket, admit, acquire,
}

abbrev pub counts : Release → ℕ
counts noop = 0
counts (give_back true) = 0
counts (give_back false) = 1

-- The requests in flight of a limiter, and its cap.
abbrev pub gate : Limiter → ℤ × ℕ
gate l = (l.in_flight, l.max_in_flight)

abbrev pub gate_of : Option Limiter → ℤ × ℕ
gate_of none = (pos 0, 0)
gate_of (some l) = gate l

-- A request takes a slot where there is a cap.
abbrev pub due : ℤ × ℕ → ℕ
due (n, cap) = if ltb 0 cap then 1 else 0

-- There is no cap, or fewer are in flight.
abbrev pub has_room : ℤ × ℕ → Bool
has_room (n, cap) = not (ltb 0 cap) || ltb_ℤ n (pos cap)

allow_global-gate : (l : Limiter) (now : ℕ) → gate (allow_global l now).0 ≡ gate l
unfolding allow_global
allow_global-gate l now = elim (Option-cases l.global) [
  | inl e ↦ ground (arith, e)
  | inr (tb, e) ↦ ground (arith, e)
]

maybe_sweep-gate : (l : Limiter) (now : ℕ) → gate (maybe_sweep l now) ≡ gate l
unfolding maybe_sweep sweep_locked
maybe_sweep-gate l now = elim (Bool-cases (leb (l.last_sweep + sweep_interval) now)) [
  | inl e ↦ rw e refl
  | inr e ↦ rw e refl
]

admit-gate :
    (l : Limiter) (now : ℕ) (key : Text) (o : Option TokenBucket)
    → gate (admit l now key o).0 ≡ gate l
unfolding admit
admit-gate l now key none = elim (Bool-cases (leb max_buckets (length l.bs))) [
  | inl e ↦ rw e refl
  | inr e ↦ rw e refl
]
admit-gate l now key (some tb) = refl

allow_per_ip-gate : (l : Limiter) (now : ℕ) (key : Text) → gate (allow_per_ip l now key).0 ≡ gate l
unfolding allow_per_ip
allow_per_ip-gate l now key =
    admit-gate (maybe_sweep l now) now key (lookup key (maybe_sweep l now).bs)
    ∙ maybe_sweep-gate l now

then_per_ip-gate :
    (said : Limiter × Bool) (later : ℕ) (key : Text)
    → gate (then_per_ip said later key).0 ≡ gate said.0
then_per_ip-gate (l, false) later key = refl
then_per_ip-gate (l, true) later key = allow_per_ip-gate l later key

pub allow-gate_of :
    (l : Limiter) (now later : ℕ) (key : Text) → gate_of (allow (some l) now later key).0 ≡ gate l
unfolding allow
allow-gate_of l now later key =
    then_per_ip-gate (allow_global l now) later key ∙ allow_global-gate l now

-- A slot that is given counts where there is a cap, and there was room for it.
pub acquire-due :
    (l : Option Limiter) (rel : Release)
    → (acquire l).1 ≡ some rel
    → (counts rel ≡ due (gate_of l)) × (has_room (gate_of l) ≡ true)
unfolding acquire
acquire-due none noop e = (refl, refl)
acquire-due none (give_back done) e = absurd (ground arith)
acquire-due (some l) rel e = elim (Bool-cases (leb l.max_in_flight 0)) [
  | inl open_gate ↦
      let none_there : ltb 0 l.max_in_flight ≡ false = ground (arith, open_gate) in
      let noop_given : noop ≡ rel = ground (arith, e, open_gate) in
      rw none_there (ap counts (sym noop_given), refl)
  | inr capped ↦
      let there : ltb 0 l.max_in_flight ≡ true = ground (arith, capped) in
      elim (Bool-cases (ltb_ℤ l.in_flight (pos l.max_in_flight))) [
        | inl room ↦
            let given : give_back false ≡ rel = ground (arith, e, capped, room) in
            rw (there, room) (ap counts (sym given), refl)
        | inr full ↦ absurd (ground (arith, e, capped, full))
      ]
]
