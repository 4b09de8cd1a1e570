-- ===== src/Auth/Throttle/Pruning.antt =====
-- Pruning is invisible: against a throttle that forgets nothing, every answer is the same.
use orxies.Prelude.{
  ℕ, ◌≤◌, ◌≡◌, refl, sym, ap, ◌∙◌, inl, inr, Bool, not, List, [], ◌∷◌, Option, none, some, arith,
  ltb, if◌then◌else◌, Bool-cases, length, Text, text_eq, text_key, lookup, kept, Distinct,
  lookup-insert, lookup-delete, lookup-keep, insert-Distinct, delete-Distinct, keep-Distinct,
}
use orxies.Auth.Throttle.{
  Throttle, Attempt, after, blocked_at, blocked, is_stale, prune, or_new, bump, record_failure,
  fail, reset,
}

pub data Event : Type 0 where
  fails : Text → Event
  resets : Text → Event
  asks : Text → Event

abbrev answer_of : Throttle → ℕ → Event → Option Bool
answer_of t now (asks key) = some (blocked t now now key).0
answer_of t now (fails key) = none
answer_of t now (resets key) = none

-- The throttle as it is, and one that never prunes.
abbrev pub after_event : Throttle → ℕ → Event → Throttle
after_event t now (fails key) = fail t now key
after_event t now (resets key) = reset t key
after_event t now (asks key) = t

abbrev pub after_unpruned : Throttle → ℕ → Event → Throttle
after_unpruned t now (fails key) = record_failure t now key
after_unpruned t now (resets key) = reset t key
after_unpruned t now (asks key) = t

-- What `Blocked` says along a history.
unfoldable pub answers :
    (Throttle → ℕ → Event → Throttle) → Throttle → List (ℕ × Event) → List (Option Bool)
answers next t [] = []
answers next t ((now, e) ∷ es) = answer_of t now e ∷ answers next (next t now e) es

-- All that an entry can still tell at a time.
pub seen : ℕ → ℕ → Option Attempt → Option Attempt
seen window now none = none
seen window now (some a) =
    if is_stale window now a
    then none
    else some (record a { lock_until = if after now a.lock_until then 0 else a.lock_until })

seen-seen :
    (window s t : ℕ) (o : Option Attempt)
    → s ≤ t
    → seen window t (seen window s o) ≡ seen window t o
unfolding seen is_stale
seen-seen window s t none h = refl
seen-seen window s t (some a) h = ground arith

blocked_at-seen :
    (window now later : ℕ) (o : Option Attempt)
    → (blocked_at now later (seen window now o)).0 ≡ (blocked_at now later o).0
unfolding seen is_stale blocked_at
blocked_at-seen window now later none = refl
blocked_at-seen window now later (some a) = ground arith

bump-seen :
    (t : Throttle) (now : ℕ) (o : Option Attempt)
    → seen t.window now (some (bump t now (or_new (seen t.window now o))))
      ≡ seen t.window now (some (bump t now (or_new o)))
unfolding seen is_stale bump
bump-seen t now none = refl
bump-seen t now (some a) = ground arith

-- Two throttles that cannot be told apart from a time on.
pub record Alike (now : ℕ) (t u : Throttle) : Type 0 where
  pub distinct : Distinct t.m
  pub max : t.max ≡ u.max
  pub lockout : t.lockout ≡ u.lockout
  pub window : t.window ≡ u.window
  pub agree : (k : Text) → seen t.window now (lookup k t.m) ≡ seen t.window now (lookup k u.m)

Alike-later : (t u : Throttle) (s now : ℕ) → s ≤ now → Alike s t u → Alike now t u
Alike-later t u s now h a = record {
  distinct = a.distinct;
  max = a.max;
  lockout = a.lockout;
  window = a.window;
  agree = λ k.
      sym (seen-seen t.window s now (lookup k t.m) h)
      ∙ (ap (seen t.window now) (a.agree k) ∙ seen-seen t.window s now (lookup k u.m) h);
}

seen-kept :
    (window now : ℕ) (k : Text) (o : Option Attempt)
    → seen window now (kept (λ j a. not (is_stale window now a)) k o) ≡ seen window now o
unfolding seen
seen-kept window now k none = refl
seen-kept window now k (some a) = ground arith

prune-Alike : (t u : Throttle) (now : ℕ) → Alike now t u → Alike now (prune t now) u
unfolding prune
prune-Alike t u now a = elim (Bool-cases (ltb (length t.m) t.max_keys)) [
  | inl small ↦ rw small a
  | inr large ↦ rw large (record {
    distinct = keep-Distinct _ t.m a.distinct;
    max = a.max;
    lockout = a.lockout;
    window = a.window;
    agree = λ k.
        rw (lookup-keep (λ j b. not (is_stale t.window now b)) k t.m a.distinct)
          (seen-kept t.window now k (lookup k t.m) ∙ a.agree k);
  })
]

bump-config :
    (t u : Throttle) (now : ℕ) (a : Attempt)
    → t.max ≡ u.max
    → t.lockout ≡ u.lockout
    → t.window ≡ u.window
    → bump t now a ≡ bump u now a
unfolding bump
bump-config t u now a p q r = rw (p, q, r)

bump-agree :
    (t u : Throttle) (now : ℕ) (key : Text)
    → Alike now t u
    → seen t.window now (some (bump t now (or_new (lookup key t.m))))
      ≡ seen t.window now (some (bump u now (or_new (lookup key u.m))))
bump-agree t u now key a =
    let bumped = λ (o : Option Attempt). seen t.window now (some (bump t now (or_new o))) in
    let same = bump-config t u now (or_new (lookup key u.m)) a.max a.lockout a.window in
    sym (bump-seen t now (lookup key t.m))
    ∙ (ap bumped (a.agree key)
        ∙ (bump-seen t now (lookup key u.m) ∙ ap (λ b. seen t.window now (some b)) same))

record_failure-agree :
    (t u : Throttle) (now : ℕ) (key k : Text)
    → Alike now t u
    → seen t.window now (lookup k (record_failure t now key).m)
      ≡ seen t.window now (lookup k (record_failure u now key).m)
unfolding record_failure
record_failure-agree t u now key k a =
    rw
      (
        lookup-insert key k (bump t now (or_new (lookup key t.m))) t.m,
        lookup-insert key k (bump u now (or_new (lookup key u.m))) u.m,
      )
      (elim (Bool-cases (text_eq key k)) [
        | inl own ↦ rw own (bump-agree t u now key a)
        | inr other ↦ rw other (a.agree k)
      ])

record_failure-Alike :
    (t u : Throttle) (now : ℕ) (key : Text)
    → Alike now t u
    → Alike now (record_failure t now key) (record_failure u now key)
unfolding record_failure
record_failure-Alike t u now key a = record {
  distinct = insert-Distinct key _ t.m a.distinct;
  max = a.max;
  lockout = a.lockout;
  window = a.window;
  agree = λ k. record_failure-agree t u now key k a;
}

reset-Alike :
    (t u : Throttle) (now : ℕ) (key : Text) → Alike now t u → Alike now (reset t key) (reset u key)
unfolding reset
reset-Alike t u now key a = record {
  distinct = delete-Distinct key t.m a.distinct;
  max = a.max;
  lockout = a.lockout;
  window = a.window;
  agree = λ k.
      rw (lookup-delete key k t.m, lookup-delete key k u.m)
        (elim (Bool-cases (text_eq key k)) [
          | inl own ↦ rw own refl
          | inr other ↦ rw other (a.agree k)
        ]);
}

after_event-Alike :
    (t u : Throttle) (now : ℕ) (e : Event)
    → Alike now t u
    → Alike now (after_event t now e) (after_unpruned u now e)
unfolding fail
after_event-Alike t u now (fails key) a =
    record_failure-Alike (prune t now) u now key (prune-Alike t u now a)
after_event-Alike t u now (resets key) a = reset-Alike t u now key a
after_event-Alike t u now (asks key) a = a

answer_of-Alike :
    (t u : Throttle) (now : ℕ) (e : Event) → Alike now t u → answer_of t now e ≡ answer_of u now e
unfolding blocked
answer_of-Alike t u now (fails key) a = refl
answer_of-Alike t u now (resets key) a = refl
answer_of-Alike t u now (asks key) a =
    let seen_t = blocked_at-seen t.window now now (lookup key t.m) in
    let seen_u = blocked_at-seen t.window now now (lookup key u.m) in
    ap some (sym seen_t ∙ (ap (λ o. (blocked_at now now o).0) (a.agree key) ∙ seen_u))

-- The times of the events rise.
abbrev pub Rising : ℕ → List (ℕ × Event) → Type 0
Rising s [] = Unit
Rising s ((now, e) ∷ es) = (s ≤ now) × Rising now es

-- Whatever happens, in the order of time, the throttle says who is blocked exactly as one that
-- never prunes: dropping entries lets nobody in early and keeps nobody out.
pub answers_unpruned :
    (t u : Throttle) (s : ℕ) (es : List (ℕ × Event))
    → Alike s t u
    → Rising s es
    → answers after_event t es ≡ answers after_unpruned u es
unfolding answers
answers_unpruned t u s [] a r = refl
answers_unpruned t u s ((now, e) ∷ es) a (le, r) =
    let later = Alike-later t u s now le a in
    cc (
      answer_of-Alike t u now e later,
      answers_unpruned (after_event t now e) (after_unpruned u now e) now es
          (after_event-Alike t u now e later) r,
    )
