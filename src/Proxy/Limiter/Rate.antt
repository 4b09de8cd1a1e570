-- ===== src/Proxy/Limiter/Rate.antt =====
-- The two rate limits of a site, as bounds on the requests that get through.
use native.Mathlib.Nat.{mul-le-mul_right}
use orxies.Prelude.{
  ℕ, ◌+◌, ◌*◌, ◌≤◌, ◌≡◌, refl, ◌∙◌, inl, inr, Bool, true, false, List, Option, none, some, arith,
  ap, sym, Text, text_eq, text_eq_iff, text_key, lookup,
}
use orxies.Prelude.Int.{ℤ, pos, pos_part, neg_part, ◌≤ℤ◌}
use orxies.Proxy.Limiter.{
  Limiter, TokenBucket, one_token, allow_global, allow_per_ip, then_per_ip, allow, maybe_sweep,
  sweep_locked, admit, spend,
}
use orxies.Proxy.Limiter.Levels.{
  held, held-le-burst, held-grows, level, IsValid, spend-Pays, spend_nonneg, Pays, Covers,
}
use orxies.Proxy.Limiter.Requests.{
  allow_per_ip-Pays, allow_per_ip-IsValid, allow_per_ip-rates, allow_per_ip_nonneg,
}
use orxies.Proxy.Limiter.Gate.{Ascending, Ascending-le, admitted, admitted_bounded}

record Runs (rps burst : ℕ) (l : Limiter) : Type 0 where
  valid : IsValid l
  rate : l.rps ≡ rps
  size : l.burst ≡ burst

level-grows :
    (rps burst : ℕ) (key : Text) (l : Limiter) (t u : ℕ)
    → Runs rps burst l
    → t ≤ u
    → pos_part (level l key u) + neg_part (level l key t) + t * rps
      ≤ pos_part (level l key t) + neg_part (level l key u) + u * rps
level-grows rps burst key l t u r h =
    rw (← r.rate) (held-grows l.rps l.burst t u (lookup key l.bs) h)

allow_per_ip-Runs :
    (rps burst : ℕ) (l : Limiter) (t : ℕ) (key : Text)
    → Runs rps burst l
    → Runs rps burst (allow_per_ip l t key).0
allow_per_ip-Runs rps burst l t key r =
    let (same_rps, same_burst) = allow_per_ip-rates l t key in
    record {
      valid = allow_per_ip-IsValid l t key r.valid;
      rate = same_rps ∙ r.rate;
      size = same_burst ∙ r.size;
    }

-- Over any stretch of requests to a valid limiter in the order of time, one address gets through at
-- most its burst and what its rate refills meanwhile.
pub per_ip_rate_bound :
    (l : Limiter) (key : Text) (from to : ℕ) (es : List (ℕ × Text))
    → IsValid l
    → Ascending from es to
    → admitted allow_per_ip (λ j. text_eq j key) l es * one_token + from * l.rps
      ≤ l.burst * one_token + to * l.rps
per_ip_rate_bound l key from to es v a =
    let bound =
      admitted_bounded allow_per_ip (λ j. text_eq j key) (λ s t. level s key t) (Runs l.rps l.burst)
        l.rps (level-grows l.rps l.burst key)
        (λ s t j r. omega (arith, allow_per_ip-Pays s t j key r.valid))
        (λ s t j r own ok. rw (← (text_eq_iff j key).0 own) (allow_per_ip_nonneg s t j r.valid ok))
        (allow_per_ip-Runs l.rps l.burst) l from to es
        (record { valid = v; rate = refl; size = refl }) a in
    let order = mul-le-mul_right l.rps (Ascending-le from to es a) in
    let top = held-le-burst l.rps l.burst from (lookup key l.bs) in
    elim bound [ inl nobody ↦ rw nobody (omega arith) | inr b ↦ omega arith ]

abbrev global_of : Option Limiter → Option TokenBucket
global_of none = none
global_of (some l) = l.global

-- A limiter with a budget for the whole site.
record Shares (rps burst : ℕ) (o : Option Limiter) : Type 0 where
  l : Limiter
  there : o ≡ some l
  tb : TokenBucket
  budget : l.global ≡ some tb
  rate : l.global_rps ≡ rps
  size : l.global_burst ≡ burst

abbrev SameBudget : Limiter → Limiter → Type 0
SameBudget l k =
    (k.global ≡ l.global) × (k.global_rps ≡ l.global_rps) × (k.global_burst ≡ l.global_burst)

maybe_sweep-SameBudget : (l : Limiter) (now : ℕ) → SameBudget l (maybe_sweep l now)
unfolding maybe_sweep sweep_locked
maybe_sweep-SameBudget l now = ground arith

admit-SameBudget :
    (l : Limiter) (now : ℕ) (key : Text) (o : Option TokenBucket)
    → SameBudget l (admit l now key o).0
unfolding admit
admit-SameBudget l now key none = ground arith
admit-SameBudget l now key (some tb) = (refl, refl, refl)

then_per_ip-SameBudget :
    (r : Limiter × Bool) (later : ℕ) (key : Text) → SameBudget r.0 (then_per_ip r later key).0
unfolding allow_per_ip
then_per_ip-SameBudget (l, false) later key = (refl, refl, refl)
then_per_ip-SameBudget (l, true) later key =
    let swept = maybe_sweep l later in
    ground (
      arith,
      maybe_sweep-SameBudget l later,
      admit-SameBudget swept later key (lookup key swept.bs),
    )

then_per_ip-le :
    (r : Limiter × Bool) (later : ℕ) (key : Text) → (then_per_ip r later key).1 ≡ true → r.1 ≡ true
then_per_ip-le (l, false) later key h = h
then_per_ip-le (l, true) later key h = refl

allow_global-some :
    (l : Limiter) (tb : TokenBucket) (now : ℕ)
    → l.global ≡ some tb
    → allow_global l now ≡ (
      record l { global = some (spend l.global_rps l.global_burst now tb).0 },
      (spend l.global_rps l.global_burst now tb).1,
    )
unfolding allow_global
allow_global-some l tb now g = rw (g, allow_global) refl

-- What a request does to the budget, whatever its address.
allow-spends :
    (l : Limiter) (tb : TokenBucket) (now later : ℕ) (key : Text)
    → l.global ≡ some tb
    → (global_of (allow (some l) now later key).0
        ≡ some (spend l.global_rps l.global_burst now tb).0)
      × ((allow (some l) now later key).1 ≡ true
          → (spend l.global_rps l.global_burst now tb).1 ≡ true)
      × Shares l.global_rps l.global_burst (allow (some l) now later key).0
unfolding allow
allow-spends l tb now later key g =
    let r = allow_global l now in
    let e = allow_global-some l tb now g in
    let kept = then_per_ip-SameBudget r later key in
    let ok = then_per_ip-le r later key in
    let global' = kept.0 ∙ ap (λ (x : Limiter × Bool). x.0.global) e in
    (
      global',
      λ h. sym (ap (λ (x : Limiter × Bool). x.1) e) ∙ ok h,
      record {
        l = (then_per_ip r later key).0;
        there = refl;
        tb = (spend l.global_rps l.global_burst now tb).0;
        budget = global';
        rate = kept.1 ∙ ap (λ (x : Limiter × Bool). x.0.global_rps) e;
        size = kept.2 ∙ ap (λ (x : Limiter × Bool). x.0.global_burst) e;
      },
    )

Covers-of_Pays :
    (ok spent : Bool) (a b : ℤ) → (ok ≡ true → spent ≡ true) → Pays spent a b → Covers ok a b
Covers-of_Pays true spent a b h p =
    let paid : Pays true a b = rw (h refl) at p in omega (arith, paid)
Covers-of_Pays false true a b h p = omega arith
Covers-of_Pays false false a b h p = omega arith

abbrev budget_level : ℕ → ℕ → Option Limiter → ℕ → ℤ
budget_level rps burst o t = held rps burst t (global_of o)

abbrev pub ask : Option Limiter → ℕ → ℕ × Text → Option Limiter × Bool
ask o now (later, key) = allow o now later key

budget-Covers :
    (l : Limiter) (tb : TokenBucket) (t later : ℕ) (key : Text)
    → l.global ≡ some tb
    → let after = allow (some l) t later key in
      Covers after.1
        (budget_level l.global_rps l.global_burst after.0 t)
        (budget_level l.global_rps l.global_burst (some l) t)
budget-Covers l tb t later key g =
    let (global', ok, _) = allow-spends l tb t later key g in
    let paid = spend-Pays l.global_rps l.global_burst t tb in
    let new = ap (held l.global_rps l.global_burst t) global' in
    let old = ap (held l.global_rps l.global_burst t) g in
    let after = allow (some l) t later key in
    Covers-of_Pays after.1 (spend l.global_rps l.global_burst t tb).1
      (budget_level l.global_rps l.global_burst after.0 t)
      (budget_level l.global_rps l.global_burst (some l) t) ok (rw (← new, ← old) at paid)

budget_settled :
    (l : Limiter) (tb : TokenBucket) (t later : ℕ) (key : Text)
    → l.global ≡ some tb
    → (allow (some l) t later key).1 ≡ true
    → pos 0 ≤ℤ budget_level l.global_rps l.global_burst (allow (some l) t later key).0 t
budget_settled l tb t later key g h =
    let (global', ok, _) = allow-spends l tb t later key g in
    rw (ap (held l.global_rps l.global_burst t) global')
      (spend_nonneg l.global_rps l.global_burst t tb (ok h))

-- However many addresses the requests come from, the site lets through at most its burst and what
-- its rate refills meanwhile.
pub site_rate_bound :
    (l : Limiter) (tb : TokenBucket) (from to : ℕ) (es : List (ℕ × (ℕ × Text)))
    → l.global ≡ some tb
    → Ascending from es to
    → admitted ask (λ x. true) (some l) es * one_token + from * l.global_rps
      ≤ l.global_burst * one_token + to * l.global_rps
site_rate_bound l tb from to es g a =
    let r = l.global_rps in
    let b = l.global_burst in
    let bound =
      admitted_bounded ask (λ x. true) (budget_level r b) (Shares r b) r
        (λ o t u s h. held-grows r b t u (global_of o) h)
        (λ o t x s. rw (s.there, ← s.rate, ← s.size) (budget-Covers s.l s.tb t x.0 x.1 s.budget))
        (λ o t x s c ok.
          rw (s.there, ← s.rate, ← s.size)
            (budget_settled s.l s.tb t x.0 x.1 s.budget (rw s.there at ok)))
        (λ o t x s. rw (s.there, ← s.rate, ← s.size) (allow-spends s.l s.tb t x.0 x.1 s.budget).2)
        (some l) from to es
        (record { l = l; there = refl; tb = tb; budget = g; rate = refl; size = refl }) a in
    let order = mul-le-mul_right r (Ascending-le from to es a) in
    let top = held-le-burst r b from l.global in
    elim bound [ inl nobody ↦ rw nobody (omega arith) | inr bounded ↦ omega arith ]
