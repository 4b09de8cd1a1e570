-- ===== src/Proxy/Limiter/Levels.antt =====
-- The tokens that an address could draw at a time, and what one visit costs.
use native.Mathlib.Nat.{mul-le-mul_right}
use orxies.Prelude.{
  ℕ, ◌+◌, ◌*◌, ◌≤◌, ◌≡◌, ◌⊎◌, inl, inr, Bool, true, false, Option, none, some, arith, Option-cases,
  Text, text_key, lookup, Distinct, lookup-keep,
}
use orxies.Prelude.Int.{ℤ, pos, pos_part, neg_part, sub_ℕ, ◌+ℤ◌, ◌-ℤ◌, ◌≤ℤ◌, -ℤ_parts, eq_of_parts}
use orxies.Proxy.Limiter.{
  Limiter, TokenBucket, one_token, filled, refill, take_one, spend, is_idle, sweep_locked,
}

-- What a bucket holds at a time, and what an address holds that has none: a full one.
unfoldable pub held : ℕ → ℕ → ℕ → Option TokenBucket → ℤ
held rate burst now none = pos (burst * one_token)
held rate burst now (some tb) = (refill rate burst now tb).tokens

abbrev pub level : Limiter → Text → ℕ → ℤ
level l key now = held l.rps l.burst now (lookup key l.bs)

pub record IsValid (l : Limiter) : Type 0 where
  pub positive : 1 ≤ l.burst
  pub distinct : Distinct l.bs

pub filled_parts :
    (rate now : ℕ) (tb : TokenBucket)
    → pos_part (filled rate now tb) + neg_part tb.tokens + tb.last * rate
      ≡ neg_part (filled rate now tb) + pos_part tb.tokens + now * rate
unfolding filled ◌+ℤ◌
filled_parts rate now tb = ground arith

pub held-le-burst :
    (rate burst now : ℕ) (o : Option TokenBucket) → held rate burst now o ≤ℤ pos (burst * one_token)
unfolding held refill
held-le-burst rate burst now none = omega arith
held-le-burst rate burst now (some tb) = ground arith

-- Between two times a level rises by the rate at most.
pub held-grows :
    (rate burst s t : ℕ) (o : Option TokenBucket)
    → s ≤ t
    → pos_part (held rate burst t o) + neg_part (held rate burst s o) + s * rate
      ≤ pos_part (held rate burst s o) + neg_part (held rate burst t o) + t * rate
unfolding held refill
held-grows rate burst s t none h = ground (arith, mul-le-mul_right rate h)
held-grows rate burst s t (some tb) h =
    ground (arith, mul-le-mul_right rate h, filled_parts rate s tb, filled_parts rate t tb)

abbrev pub cost : Bool → ℕ
cost true = one_token
cost false = 0

-- `a` is `b` less the cost of the answer.
abbrev pub Pays : Bool → ℤ → ℤ → Type 0
Pays ok a b = pos_part a + neg_part b + cost ok ≡ pos_part b + neg_part a

-- `a` is at most `b` less the cost.
abbrev pub Covers : Bool → ℤ → ℤ → Type 0
Covers ok a b = pos_part a + neg_part b + cost ok ≤ pos_part b + neg_part a

filled_now : (rate now : ℕ) (n : ℤ) → filled rate now (record { tokens = n; last = now }) ≡ n
unfolding filled ◌+ℤ◌
filled_now rate now n = ground arith

refill_again :
    (rate burst now : ℕ) (n : ℤ)
    → n ≤ℤ pos (burst * one_token)
    → (refill rate burst now (record { tokens = n; last = now })).tokens ≡ n
unfolding refill
refill_again rate burst now n h = ground (arith, filled_now rate now n)

refill-le-burst :
    (rate burst now : ℕ) (tb : TokenBucket)
    → (refill rate burst now tb).tokens ≤ℤ pos (burst * one_token)
unfolding refill
refill-le-burst rate burst now tb = ground arith

take_one-cases :
    (tb : TokenBucket)
    → (take_one tb ≡ (tb, false))
      ⊎ (take_one tb ≡ (record tb { tokens = tb.tokens -ℤ pos one_token }, true))
unfolding take_one
take_one-cases tb = ground arith

refill_updated :
    (rate burst now : ℕ) (tb : TokenBucket) (n : ℤ)
    → n ≤ℤ pos (burst * one_token)
    → (refill rate burst now (record (refill rate burst now tb) { tokens = n })).tokens ≡ n
unfolding refill
refill_updated rate burst now tb n h = refill_again rate burst now n h

take_one-true :
    (tb : TokenBucket)
    → (take_one tb).1 ≡ true
    → (pos one_token ≤ℤ tb.tokens)
      × (take_one tb ≡ (record tb { tokens = tb.tokens -ℤ pos one_token }, true))
unfolding take_one
take_one-true tb h = ground arith

-- A spent bucket holds what it held, less the token if there was one.
pub spend-Pays :
    (rate burst now : ℕ) (tb : TokenBucket)
    → Pays
        (spend rate burst now tb).1
        (held rate burst now (some (spend rate burst now tb).0))
        (held rate burst now (some tb))
unfolding held spend
spend-Pays rate burst now tb =
    let b = refill rate burst now tb in
    let parts = -ℤ_parts b.tokens (pos one_token) in
    let top = refill-le-burst rate burst now tb in
    elim (take_one-cases b) [
      | inl e ↦ rw e (ground (arith, refill_updated rate burst now tb b.tokens top))
      | inr e ↦ rw e (
          ground (
            arith,
            parts,
            refill_updated rate burst now tb (b.tokens -ℤ pos one_token) (omega (arith, parts)),
          ))
    ]

-- The sweep takes no token from anybody: a bucket that it drops would have been full.
pub level-sweep :
    (l : Limiter) (key : Text) (now : ℕ)
    → Distinct l.bs
    → held l.rps l.burst now (lookup key (sweep_locked l now).bs) ≡ level l key now
unfolding held refill sweep_locked is_idle
level-sweep l key now d = elim (Option-cases (lookup key l.bs)) [
  | inl e ↦ rw (lookup-keep _ key l.bs d, e)
  | inr (tb, e) ↦
      rw (lookup-keep _ key l.bs d, e)
        (ground (arith, eq_of_parts (filled l.rps now tb) (pos (l.burst * one_token))))
]

pub held_fresh :
    (rate burst now : ℕ)
    → held rate burst now
        (some (record { tokens = sub_ℕ (burst * one_token) one_token; last = now }))
      ≡ sub_ℕ (burst * one_token) one_token
unfolding held
held_fresh rate burst now = refill_again rate burst now _ (ground arith)

pub spend_nonneg :
    (rate burst now : ℕ) (tb : TokenBucket)
    → (spend rate burst now tb).1 ≡ true
    → pos 0 ≤ℤ held rate burst now (some (spend rate burst now tb).0)
unfolding held spend
spend_nonneg rate burst now tb h =
    let b = refill rate burst now tb in
    let parts = -ℤ_parts b.tokens (pos one_token) in
    let top = refill-le-burst rate burst now tb in
    ground (
      arith,
      h,
      take_one-true b,
      parts,
      refill_updated rate burst now tb (b.tokens -ℤ pos one_token) (omega (arith, parts)),
    )
