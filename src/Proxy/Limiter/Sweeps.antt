-- ===== src/Proxy/Limiter/Sweeps.antt =====
-- The size of the bucket map, and that the sweep changes no answer.
use native.Mathlib.Nat.{mul-le-mul_right}
use orxies.Prelude.{
  ℕ, ◌+◌, ◌*◌, ◌≤◌, ◌<◌, ◌≡◌, refl, inl, inr, Bool, true, Option, none, some, arith, ap, sym, ◌∙◌,
  Bool-cases, Text, text_key, lookup, length, length-insert, length-keep-le, leb, lookup-keep,
  lookup-insert, kept, text_eq, if◌then◌else◌, true, false, not,
}
use orxies.Prelude.Int.{pos, sub_ℕ, ◌-ℤ◌, eq_of_parts}
use orxies.Proxy.Limiter.{
  Limiter, TokenBucket, one_token, max_buckets, sweep_interval, filled, refill, take_one, spend,
  is_idle, sweep_locked, maybe_sweep, admit, allow_per_ip,
}
use orxies.Proxy.Limiter.Levels.{IsValid, held, level, filled_parts}

abbrev Capped : Limiter → Type 0
Capped l = length l.bs ≤ max_buckets

admit-Capped :
    (l : Limiter) (now : ℕ) (key : Text) (o : Option TokenBucket)
    → lookup key l.bs ≡ o
    → Capped l
    → Capped (admit l now key o).0
unfolding admit
admit-Capped l now key none e c = ground (
  arith,
  e,
  length-insert key (record { tokens = sub_ℕ (l.burst * one_token) one_token; last = now }) l.bs,
)
admit-Capped l now key (some tb) e c =
    ground (arith, e, length-insert key (spend l.rps l.burst now tb).0 l.bs)

maybe_sweep-Capped : (l : Limiter) (now : ℕ) → Capped l → Capped (maybe_sweep l now)
unfolding maybe_sweep sweep_locked
maybe_sweep-Capped l now c =
    ground (arith, length-keep-le (λ k tb. not (is_idle l.rps l.burst now tb)) l.bs)

-- However many addresses a flood comes from, a site tracks at most 50,000 of them.
pub allow_per_ip-Capped :
    (l : Limiter) (now : ℕ) (key : Text)
    → length l.bs ≤ max_buckets
    → length (allow_per_ip l now key).0.bs ≤ max_buckets
unfolding allow_per_ip
allow_per_ip-Capped l now key c =
    admit-Capped (maybe_sweep l now) now key (lookup key (maybe_sweep l now).bs) refl
      (maybe_sweep-Capped l now c)

refill_idle :
    (rate burst now : ℕ) (tb : TokenBucket)
    → is_idle rate burst now tb ≡ true
    → refill rate burst now tb ≡ record { tokens = pos (burst * one_token); last = now }
unfolding refill is_idle
refill_idle rate burst now tb idle =
    ground (arith, eq_of_parts (filled rate now tb) (pos (burst * one_token)))

take_one_full :
    (n now : ℕ)
    → 1 ≤ n
    → take_one (record { tokens = pos (n * one_token); last = now })
      ≡ (record { tokens = sub_ℕ (n * one_token) one_token; last = now }, true)
unfolding take_one ◌-ℤ◌
take_one_full n now h = ground arith

-- A full bucket answers as an absent one does, and is left as a new one is.
pub spend_idle :
    (rate burst now : ℕ) (tb : TokenBucket)
    → 1 ≤ burst
    → is_idle rate burst now tb ≡ true
    → spend rate burst now tb
      ≡ (record { tokens = sub_ℕ (burst * one_token) one_token; last = now }, true)
unfolding spend
spend_idle rate burst now tb h idle =
    rw (refill_idle rate burst now tb idle) (take_one_full burst now h)

admit_new :
    (l : Limiter) (now : ℕ) (key : Text)
    → length l.bs < max_buckets
    → (admit l now key none).1 ≡ true
unfolding admit
admit_new l now key room = ground arith

abbrev swept : Limiter → ℕ → Limiter
swept l now = record (sweep_locked l now) { last_sweep = now }

swept-room :
    (l : Limiter) (now : ℕ) → length l.bs < max_buckets → length (swept l now).bs < max_buckets
unfolding sweep_locked
swept-room l now room =
    omega (arith, length-keep-le (λ k tb. not (is_idle l.rps l.burst now tb)) l.bs)

-- The answer to a request if the map is swept first, and if it is not.
swept_answer :
    (l : Limiter) (now : ℕ) (key : Text) (o : Option TokenBucket)
    → IsValid l
    → length l.bs < max_buckets
    → lookup key l.bs ≡ o
    → (admit (swept l now) now key (lookup key (swept l now).bs)).1 ≡ (admit l now key o).1
unfolding sweep_locked admit
swept_answer l now key none v room e =
    rw (lookup-keep _ key l.bs v.distinct, e)
      (admit_new (swept l now) now key (swept-room l now room) ∙ sym (admit_new l now key room))
swept_answer l now key (some tb) v room e =
    rw (lookup-keep _ key l.bs v.distinct, e)
      (elim (Bool-cases (is_idle l.rps l.burst now tb)) [
        | inl idle ↦ rw idle (
            admit_new (swept l now) now key (swept-room l now room)
            ∙ sym (
                ap (λ (r : TokenBucket × Bool). r.1)
                  (spend_idle l.rps l.burst now tb v.positive idle)))
        | inr busy ↦ rw busy refl
      ])

-- What a request leaves of the bucket of its address.
abbrev left : ℕ → ℕ → ℕ → Option TokenBucket → TokenBucket
left rate burst now none = record { tokens = sub_ℕ (burst * one_token) one_token; last = now }
left rate burst now (some tb) = (spend rate burst now tb).0

level-admit :
    (l : Limiter) (now t : ℕ) (key k : Text) (o : Option TokenBucket)
    → length l.bs < max_buckets
    → level (admit l now key o).0 k t
      ≡ held l.rps l.burst t
          (if text_eq key k then some (left l.rps l.burst now o) else lookup k l.bs)
unfolding admit
level-admit l now t key k none room =
    let fits : leb max_buckets (length l.bs) ≡ false = ground arith in
    rw fits (ap (held l.rps l.burst t) (lookup-insert key k _ l.bs))
level-admit l now t key k (some tb) room = ap (held l.rps l.burst t) (lookup-insert key k _ l.bs)

idle_later :
    (rate burst now t : ℕ) (tb : TokenBucket)
    → now ≤ t
    → is_idle rate burst now tb ≡ true
    → is_idle rate burst t tb ≡ true
unfolding is_idle
idle_later rate burst now t tb le idle =
    ground (arith, filled_parts rate now tb, filled_parts rate t tb, mul-le-mul_right rate le)

-- A bucket that is swept holds as much as none.
held-kept :
    (rate burst now t : ℕ) (k : Text) (o : Option TokenBucket)
    → now ≤ t
    → held rate burst t (kept (λ k tb. not (is_idle rate burst now tb)) k o) ≡ held rate burst t o
unfolding held
held-kept rate burst now t k none le = refl
held-kept rate burst now t k (some tb) le = elim (Bool-cases (is_idle rate burst now tb)) [
  | inl idle ↦ rw idle (
      sym (
        ap (λ (b : TokenBucket). b.tokens)
          (refill_idle rate burst t tb (idle_later rate burst now t tb le idle))))
  | inr busy ↦ rw busy refl
]

left-kept :
    (rate burst now : ℕ) (k : Text) (o : Option TokenBucket)
    → 1 ≤ burst
    → left rate burst now (kept (λ k tb. not (is_idle rate burst now tb)) k o)
      ≡ left rate burst now o
left-kept rate burst now k none le = refl
left-kept rate burst now k (some tb) le = elim (Bool-cases (is_idle rate burst now tb)) [
  | inl idle ↦
      rw idle (sym (ap (λ (r : TokenBucket × Bool). r.0) (spend_idle rate burst now tb le idle)))
  | inr busy ↦ rw busy refl
]

held-if :
    (rate burst t : ℕ) (b : Bool) (x y : TokenBucket) (o p : Option TokenBucket)
    → x ≡ y
    → held rate burst t o ≡ held rate burst t p
    → held rate burst t (if b then some x else o) ≡ held rate burst t (if b then some y else p)
held-if rate burst t true x y o p e h = ap (λ b. held rate burst t (some b)) e
held-if rate burst t false x y o p e h = h

level-swept :
    (l : Limiter) (now t : ℕ) (key k : Text)
    → IsValid l
    → length l.bs < max_buckets
    → now ≤ t
    → level (admit (swept l now) now key (lookup key (swept l now).bs)).0 k t
      ≡ level (admit l now key (lookup key l.bs)).0 k t
unfolding sweep_locked
level-swept l now t key k v room le =
    let rest = λ (k : Text) (tb : TokenBucket). not (is_idle l.rps l.burst now tb) in
    level-admit (swept l now) now t key k _ (swept-room l now room)
    ∙ held-if l.rps l.burst t (text_eq key k) _ _ _ _
        (ap (left l.rps l.burst now) (lookup-keep rest key l.bs v.distinct)
          ∙ left-kept l.rps l.burst now key (lookup key l.bs) v.positive)
        (ap (held l.rps l.burst t) (lookup-keep rest k l.bs v.distinct)
          ∙ held-kept l.rps l.burst now t k (lookup k l.bs) le)
    ∙ sym (level-admit l now t key k (lookup key l.bs) room)

-- The sweep loses no enforcement: while the map has room, a request is answered as if the map were
-- never swept, and leaves every address with what it would then hold, now and at any later time.
pub sweep_keeps_answers :
    (l : Limiter) (now : ℕ) (key k : Text) (t : ℕ)
    → IsValid l
    → length l.bs < max_buckets
    → now ≤ t
    → ((allow_per_ip l now key).1 ≡ (admit l now key (lookup key l.bs)).1)
      × (level (allow_per_ip l now key).0 k t ≡ level (admit l now key (lookup key l.bs)).0 k t)
unfolding allow_per_ip maybe_sweep
sweep_keeps_answers l now key k t v room le =
    elim (Bool-cases (leb (l.last_sweep + sweep_interval) now)) [
      | inl due ↦ rw due (
        swept_answer l now key (lookup key l.bs) v room refl,
        level-swept l now t key k v room le,
      )
      | inr early ↦ rw early (refl, refl)
    ]
