-- ===== src/Proxy/Limiter/Requests.antt =====
-- How one request moves the levels of the addresses.
use orxies.Prelude.{
  ℕ, ◌*◌, ◌≤◌, ◌≡◌, refl, inl, inr, Bool, true, false, List, Option, none, some, arith, leb,
  if◌then◌else◌, Bool-cases, Text, text_eq, text_eq_iff, text_eq_refl, text_key, lookup, insert,
  Distinct, lookup-insert, insert-Distinct, keep-Distinct, length, not,
}
use orxies.Prelude.Int.{pos, sub_ℕ, ◌≤ℤ◌}
use orxies.Proxy.Limiter.{
  Limiter, TokenBucket, one_token, max_buckets, spend, is_idle, sweep_locked, maybe_sweep, admit,
  allow_per_ip,
}
use orxies.Proxy.Limiter.Levels.{
  held, level, IsValid, Pays, held_fresh, spend-Pays, spend_nonneg, level-sweep,
}

fresh_Pays :
    (rate burst now : ℕ)
    → 1 ≤ burst
    → Pays true (sub_ℕ (burst * one_token) one_token) (held rate burst now none)
unfolding held
fresh_Pays rate burst now h = ground arith

insert-Pays :
    (rate burst now : ℕ) (bs : List (Text × TokenBucket)) (key j : Text) (tb : TokenBucket)
    (ok : Bool)
    → Pays ok (held rate burst now (some tb)) (held rate burst now (lookup key bs))
    → Pays
        (if text_eq key j then ok else false)
        (held rate burst now (lookup j (insert key tb bs)))
        (held rate burst now (lookup j bs))
insert-Pays rate burst now bs key j tb ok h = rw lookup-insert (elim (Bool-cases (text_eq key j)) [
  | inl s ↦ rw (s, ← (text_eq_iff key j).0 s) h
  | inr n ↦ rw n (omega arith)
])

admit-Pays :
    (l : Limiter) (now : ℕ) (key j : Text) (o : Option TokenBucket)
    → 1 ≤ l.burst
    → lookup key l.bs ≡ o
    → Pays
        (if text_eq key j then (admit l now key o).1 else false)
        (held l.rps l.burst now (lookup j (admit l now key o).0.bs))
        (level l j now)
unfolding admit
admit-Pays l now key j none h e =
    let fresh : TokenBucket = record {
      tokens = sub_ℕ (l.burst * one_token) one_token;
      last = now;
    } in
    elim (Bool-cases (leb max_buckets (length l.bs))) [
      | inl full ↦ rw full (ground arith)
      | inr room ↦ rw room (
          insert-Pays l.rps l.burst now l.bs key j fresh true
            (rw (e, held_fresh l.rps l.burst now) (fresh_Pays l.rps l.burst now h)))
    ]
admit-Pays l now key j (some tb) h e =
    insert-Pays l.rps l.burst now l.bs key j _ _ (rw e (spend-Pays l.rps l.burst now tb))

sweep_locked-rates :
    (l : Limiter) (now : ℕ)
    → ((sweep_locked l now).rps ≡ l.rps) × ((sweep_locked l now).burst ≡ l.burst)
unfolding sweep_locked
sweep_locked-rates l now = (refl, refl)

maybe_sweep-level :
    (l : Limiter) (now : ℕ) (j : Text)
    → Distinct l.bs
    → level (maybe_sweep l now) j now ≡ level l j now
unfolding maybe_sweep
maybe_sweep-level l now j d = ground (arith, level-sweep l j now d, sweep_locked-rates l now)

maybe_sweep-IsValid : (l : Limiter) (now : ℕ) → IsValid l → IsValid (maybe_sweep l now)
unfolding maybe_sweep sweep_locked
maybe_sweep-IsValid l now v =
    ground (arith, keep-Distinct (λ k tb. not (is_idle l.rps l.burst now tb)) l.bs)

maybe_sweep-rates :
    (l : Limiter) (now : ℕ)
    → ((maybe_sweep l now).rps ≡ l.rps) × ((maybe_sweep l now).burst ≡ l.burst)
unfolding maybe_sweep sweep_locked
maybe_sweep-rates l now = ground arith

admit-rates :
    (l : Limiter) (now : ℕ) (key : Text) (o : Option TokenBucket)
    → ((admit l now key o).0.rps ≡ l.rps) × ((admit l now key o).0.burst ≡ l.burst)
unfolding admit
admit-rates l now key none = ground arith
admit-rates l now key (some tb) = (refl, refl)

admit-IsValid :
    (l : Limiter) (now : ℕ) (key : Text) (o : Option TokenBucket)
    → IsValid l
    → IsValid (admit l now key o).0
unfolding admit
admit-IsValid l now key none v = ground (
  arith,
  insert-Distinct key (record { tokens = sub_ℕ (l.burst * one_token) one_token; last = now }) l.bs,
)
admit-IsValid l now key (some tb) v =
    ground (arith, insert-Distinct key (spend l.rps l.burst now tb).0 l.bs)

-- A request takes one token from its own address if it is let in, none if it is refused, and none
-- from any other address.
pub allow_per_ip-Pays :
    (l : Limiter) (now : ℕ) (key j : Text)
    → IsValid l
    → Pays
        (if text_eq key j then (allow_per_ip l now key).1 else false)
        (level (allow_per_ip l now key).0 j now)
        (level l j now)
unfolding allow_per_ip
allow_per_ip-Pays l now key j v =
    let swept = maybe_sweep l now in
    let (same_rps, same_burst) = maybe_sweep-rates l now in
    let (rps', burst') = admit-rates swept now key (lookup key swept.bs) in
    let paid =
      admit-Pays swept now key j (lookup key swept.bs) (maybe_sweep-IsValid l now v).positive
        refl in
    rw (rps', burst', ← maybe_sweep-level l now j v.distinct) paid

pub allow_per_ip-IsValid :
    (l : Limiter) (now : ℕ) (key : Text) → IsValid l → IsValid (allow_per_ip l now key).0
unfolding allow_per_ip
allow_per_ip-IsValid l now key v =
    let swept = maybe_sweep l now in
    admit-IsValid swept now key (lookup key swept.bs) (maybe_sweep-IsValid l now v)

held-insert_self :
    (rate burst now : ℕ) (bs : List (Text × TokenBucket)) (key : Text) (tb : TokenBucket)
    → held rate burst now (lookup key (insert key tb bs)) ≡ held rate burst now (some tb)
held-insert_self rate burst now bs key tb = rw (lookup-insert, text_eq_refl key)

admit_nonneg :
    (l : Limiter) (now : ℕ) (key : Text) (o : Option TokenBucket)
    → 1 ≤ l.burst
    → (admit l now key o).1 ≡ true
    → pos 0 ≤ℤ held l.rps l.burst now (lookup key (admit l now key o).0.bs)
unfolding admit
admit_nonneg l now key none v h =
    let fresh : TokenBucket = record {
      tokens = sub_ℕ (l.burst * one_token) one_token;
      last = now;
    } in
    elim (Bool-cases (leb max_buckets (length l.bs))) [
      | inl full ↦ ground arith
      | inr room ↦
          rw (room, held-insert_self l.rps l.burst now l.bs key fresh, held_fresh l.rps l.burst now)
            (ground arith)
    ]
admit_nonneg l now key (some tb) v h =
    rw (held-insert_self l.rps l.burst now l.bs key (spend l.rps l.burst now tb).0)
      (spend_nonneg l.rps l.burst now tb h)

-- Whoever is let in was left with no debt.
pub allow_per_ip_nonneg :
    (l : Limiter) (now : ℕ) (key : Text)
    → IsValid l
    → (allow_per_ip l now key).1 ≡ true
    → pos 0 ≤ℤ level (allow_per_ip l now key).0 key now
unfolding allow_per_ip
allow_per_ip_nonneg l now key v h =
    let swept = maybe_sweep l now in
    let (rps', burst') = admit-rates swept now key (lookup key swept.bs) in
    rw (rps', burst')
      (admit_nonneg swept now key (lookup key swept.bs) (maybe_sweep-IsValid l now v).positive h)

pub allow_per_ip-rates :
    (l : Limiter) (now : ℕ) (key : Text)
    → ((allow_per_ip l now key).0.rps ≡ l.rps) × ((allow_per_ip l now key).0.burst ≡ l.burst)
unfolding allow_per_ip
allow_per_ip-rates l now key =
    let swept = maybe_sweep l now in
    ground (arith, admit-rates swept now key (lookup key swept.bs), maybe_sweep-rates l now)
