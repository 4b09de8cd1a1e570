-- ===== src/Proxy/Limiter/Gate.antt =====
-- The token bucket bound, once for every gate that keeps a level of tokens.
use native.Mathlib.Nat.{mul-le-mul_right}
use orxies.Prelude.{
  ℕ, ◌+◌, ◌*◌, ◌≤◌, ◌≡◌, refl, ◌⊎◌, inl, inr, Bool, true, false, ◌&&◌, List, [], ◌∷◌, arith,
  if◌then◌else◌, Bool-cases,
}
use orxies.Prelude.Int.{ℤ, pos, pos_part, neg_part, ◌≤ℤ◌}
use orxies.Proxy.Limiter.{one_token}
use orxies.Proxy.Limiter.Levels.{Covers}

-- The times of the events rise from `s` to at most `t`.
abbrev pub Ascending {ℓ} : {X : Type ℓ} → ℕ → List (ℕ × X) → ℕ → Type 0
Ascending s [] t = s ≤ t
Ascending s ((u, x) ∷ es) t = (s ≤ u) × Ascending u es t

pub Ascending-le {ℓ} : {X : Type ℓ} (s t : ℕ) (es : List (ℕ × X)) → Ascending s es t → s ≤ t
Ascending-le s t [] a = a
Ascending-le s t ((u, x) ∷ es) a = omega (arith, a.0, Ascending-le u t es a.1)

-- The levels before the wait, after it and after the visit, the tokens that have come by the three
-- times, and the number of later events that are let in.
module _ (f l l' : ℤ) (from t to k : ℕ)
    (rise : pos_part l + neg_part f + from ≤ pos_part f + neg_part l + t) where
  one_more :
      Covers true l' l
      → t ≤ to
      → pos 0 ≤ℤ l'
      → (k ≡ 0) ⊎ (k * one_token + neg_part l' + t ≤ pos_part l' + to)
      → (1 + k) * one_token + neg_part f + from ≤ pos_part f + to
  one_more paid order settled (inl none_later) = omega arith
  one_more paid order settled (inr bound) = omega arith

  no_more :
      Covers false l' l
      → (k ≡ 0) ⊎ (k * one_token + neg_part l' + t ≤ pos_part l' + to)
      → (0 + k ≡ 0) ⊎ ((0 + k) * one_token + neg_part f + from ≤ pos_part f + to)
  no_more paid (inl none_later) = inl (omega arith)
  no_more paid (inr bound) = inr (omega arith)

module _ {ℓ κ} {S : Type ℓ} {X : Type κ} (step : S → ℕ → X → S × Bool) (charged : X → Bool) where
  -- How many of the charged events are let in, one after the other.
  unfoldable pub admitted : S → List (ℕ × X) → ℕ
  admitted s [] = 0
  admitted s ((t, x) ∷ es) =
      (if charged x && (step s t x).1 then 1 else 0) + admitted (step s t x).0 es

  -- The bound follows if a level pays for whatever is let in, is not in debt afterwards, and
  -- rises by the rate at most.
  module _ (level : S → ℕ → ℤ) (Valid : S → Type 0) (rate : ℕ)
      (grows : (s : S) (t u : ℕ)
        → Valid s
        → t ≤ u
        → pos_part (level s u) + neg_part (level s t) + t * rate
          ≤ pos_part (level s t) + neg_part (level s u) + u * rate)
      (pays : (s : S) (t : ℕ) (x : X)
        → Valid s
        → Covers (if charged x then (step s t x).1 else false) (level (step s t x).0 t) (level s t))
      (settled : (s : S) (t : ℕ) (x : X)
        → Valid s
        → charged x ≡ true
        → (step s t x).1 ≡ true
        → pos 0 ≤ℤ level (step s t x).0 t)
      (stays : (s : S) (t : ℕ) (x : X) → Valid s → Valid (step s t x).0) where
    pub admitted_bounded :
        (s : S) (from to : ℕ) (es : List (ℕ × X))
        → Valid s
        → Ascending from es to
        → (admitted s es ≡ 0)
          ⊎ (admitted s es * one_token + neg_part (level s from) + from * rate
              ≤ pos_part (level s from) + to * rate)
    unfolding admitted
    admitted_bounded s from to [] v a = inl refl
    admitted_bounded s from to ((t, x) ∷ es) v a =
        let ih = admitted_bounded (step s t x).0 t to es (stays s t x v) a.1 in
        let rise = grows s from t v a.0 in
        let paid = pays s t x v in
        let later = Ascending-le t to es a.1 in
        let order = mul-le-mul_right rate later in
        let s' = (step s t x).0 in
        let more =
          one_more (level s from) (level s t) (level s' t) (from * rate) (t * rate) (to * rate)
            (admitted s' es) rise in
        let same =
          no_more (level s from) (level s t) (level s' t) (from * rate) (t * rate) (to * rate)
            (admitted s' es) rise in
        elim (Bool-cases (charged x)) [
          | inl c ↦ elim (Bool-cases (step s t x).1) [
            | inl ok ↦ rw (c, ok) (inr (more (rw (c, ok) at paid) order (settled s t x v c ok) ih))
            | inr refused ↦ rw (c, refused) (same (rw (c, refused) at paid) ih)
          ]
          | inr other ↦ rw other (same (rw other at paid) ih)
        ]
