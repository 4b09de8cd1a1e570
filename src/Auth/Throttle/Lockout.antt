-- ===== src/Auth/Throttle/Lockout.antt =====
-- What a burst of failures does to an address.
use mathlib.Core.Path.{subst}
use orxies.Prelude.{
  ℕ, ◌+◌, ◌-◌, ◌≤◌, ◌<◌, ◌≡◌, ◌∙◌, ap, sym, inl, inr, false, not, List, [], ◌∷◌, Option, none, some,
  arith, ltb, leb, ◌==◌, if◌then◌else◌, Bool-cases, length, Text, text_eq_refl, text_key, lookup,
  Distinct, lookup-insert, lookup-keep, insert-Distinct, keep-Distinct,
}
use orxies.Auth.Throttle.{
  Throttle, Attempt, is_stale, prune, or_new, bump, record_failure, fail, blocked_at, blocked,
}

unfoldable pub fail_all : Throttle → Text → List ℕ → Throttle
fail_all t key [] = t
fail_all t key (now ∷ times) = fail_all (fail t now key) key times

-- Each time lies at most a window after the one before.
abbrev pub IsBurst : ℕ → ℕ → List ℕ → Type 0
IsBurst window s [] = Unit
IsBurst window s (now ∷ times) = (now - s ≤ window) × IsBurst window now times

abbrev pub last_of : ℕ → List ℕ → ℕ
last_of s [] = s
last_of s (now ∷ times) = last_of now times

prune_recent :
    (t : Throttle) (now : ℕ) (key : Text) (a : Attempt)
    → Distinct t.m
    → lookup key t.m ≡ some a
    → now - a.last ≤ t.window
    → lookup key (prune t now).m ≡ some a
unfolding prune is_stale
prune_recent t now key a d e h =
    ground (arith, e, lookup-keep (λ k b. not (is_stale t.window now b)) key t.m d)

prune_absent :
    (t : Throttle) (now : ℕ) (key : Text)
    → Distinct t.m
    → lookup key t.m ≡ none
    → lookup key (prune t now).m ≡ none
unfolding prune
prune_absent t now key d e =
    ground (arith, e, lookup-keep (λ k b. not (is_stale t.window now b)) key t.m d)

abbrev SameRules : Throttle → Throttle → Type 0
SameRules t u = (u.max ≡ t.max) × (u.lockout ≡ t.lockout) × (u.window ≡ t.window)

fail-SameRules : (t : Throttle) (now : ℕ) (key : Text) → SameRules t (fail t now key)
unfolding fail record_failure prune
fail-SameRules t now key = ground arith

fail-Distinct : (t : Throttle) (now : ℕ) (key : Text) → Distinct t.m → Distinct (fail t now key).m
unfolding fail record_failure prune
fail-Distinct t now key d =
    insert-Distinct key _ (prune t now).m
      (ground (arith, keep-Distinct (λ k b. not (is_stale t.window now b)) t.m d))

bump-prune : (t : Throttle) (now : ℕ) (a : Attempt) → bump (prune t now) now a ≡ bump t now a
unfolding bump prune
bump-prune t now a = elim (Bool-cases (ltb (length t.m) t.max_keys)) [
  | inl small ↦ rw small
  | inr large ↦ rw large
]

lookup-fail :
    (t : Throttle) (now : ℕ) (key : Text) (o : Option Attempt)
    → lookup key (prune t now).m ≡ o
    → lookup key (fail t now key).m ≡ some (bump t now (or_new o))
unfolding fail record_failure
lookup-fail t now key o e = rw (lookup-insert, text_eq_refl key, e, bump-prune t now (or_new o))

-- A record with `n` failures in all.
abbrev pub outcome : Throttle → ℕ → ℕ → ℕ → Attempt
outcome t n last locked =
    if n == t.max
    then record { fails = 0; last = last; lock_until = last + t.lockout }
    else record { fails = n; last = last; lock_until = locked }

outcome-rules :
    (t u : Throttle) (n last locked : ℕ)
    → SameRules t u
    → outcome u n last locked ≡ outcome t n last locked
outcome-rules t u n last locked (p, q, r) = rw (p, q)

outcome_below :
    (t : Throttle) (n last locked : ℕ)
    → n < t.max
    → outcome t n last locked ≡ record { fails = n; last = last; lock_until = locked }
outcome_below t n last locked h = ground arith

-- One failure more, not too late and with room for it.
bump_counts :
    (t : Throttle) (now : ℕ) (a : Attempt)
    → now - a.last ≤ t.window
    → a.fails + 1 ≤ t.max
    → bump t now a ≡ outcome t (a.fails + 1) now a.lock_until
unfolding bump
bump_counts t now a h room = ground arith

fail_all-outcome :
    (t : Throttle) (key : Text) (a : Attempt) (times : List ℕ)
    → Distinct t.m
    → lookup key t.m ≡ some a
    → IsBurst t.window a.last times
    → a.fails < t.max
    → a.fails + length times ≤ t.max
    → lookup key (fail_all t key times).m
      ≡ some (outcome t (a.fails + length times) (last_of a.last times) a.lock_until)
unfolding fail_all
fail_all-outcome t key a [] d e b lt le = ground (arith, e)
fail_all-outcome t key a (now ∷ []) d e b lt le =
    let recent = prune_recent t now key a d e b.0 in
    let counted = bump_counts t now a b.0 (omega arith) in
    let sum : a.fails + 1 ≡ a.fails + length (now ∷ []) = omega arith in
    lookup-fail t now key (some a) recent ∙ ap some counted
fail_all-outcome t key a (now ∷ next ∷ times) d e b lt le =
    let recent = prune_recent t now key a d e b.0 in
    let counted = bump_counts t now a b.0 (omega arith) in
    let t' = fail t now key in
    let a' : Attempt = record { fails = a.fails + 1; last = now; lock_until = a.lock_until } in
    let rules = fail-SameRules t now key in
    let below : bump t now a ≡ a' =
      counted ∙ outcome_below t (a.fails + 1) now a.lock_until (omega arith) in
    let found = lookup-fail t now key (some a) recent ∙ ap some below in
    let burst : IsBurst t'.window now (next ∷ times) =
      subst (λ w. IsBurst w now (next ∷ times)) (sym rules.2) b.1 in
    let sum : a.fails + 1 + length (next ∷ times) ≡ a.fails + length (now ∷ next ∷ times) =
      omega arith in
    fail_all-outcome t' key a' (next ∷ times) (fail-Distinct t now key d) found burst
      (omega (arith, rules.0)) (omega (arith, rules.0))
    ∙ (ap some (
          outcome-rules t t' (a.fails + 1 + length (next ∷ times)) (last_of next times) a.lock_until
            rules)
        ∙ ap (λ n. some (outcome t n (last_of next times) a.lock_until)) sum)

first_failure :
    (t : Throttle) (now : ℕ) (key : Text)
    → Distinct t.m
    → lookup key t.m ≡ none
    → 1 ≤ t.max
    → lookup key (fail t now key).m ≡ some (outcome t 1 now 0)
unfolding bump
first_failure t now key d e h =
    lookup-fail t now key none (prune_absent t now key d e) ∙ ap some (ground arith)

burst-outcome :
    (t : Throttle) (key : Text) (first : ℕ) (times : List ℕ)
    → Distinct t.m
    → lookup key t.m ≡ none
    → IsBurst t.window first times
    → length (first ∷ times) ≤ t.max
    → lookup key (fail_all t key (first ∷ times)).m
      ≡ some (outcome t (length (first ∷ times)) (last_of first times) 0)
unfolding fail_all
burst-outcome t key first [] d e b le = first_failure t first key d e le
burst-outcome t key first (now ∷ times) d e b le =
    let t' = fail t first key in
    let rules = fail-SameRules t first key in
    let a' : Attempt = record { fails = 1; last = first; lock_until = 0 } in
    let found : lookup key t'.m ≡ some a' =
      first_failure t first key d e (omega arith)
      ∙ ap some (outcome_below t 1 first 0 (omega arith)) in
    let burst : IsBurst t'.window first (now ∷ times) =
      subst (λ w. IsBurst w first (now ∷ times)) (sym rules.2) b in
    let sum : 1 + length (now ∷ times) ≡ length (first ∷ now ∷ times) = omega arith in
    fail_all-outcome t' key a' (now ∷ times) (fail-Distinct t first key d) found burst
      (omega (arith, rules.0)) (omega (arith, rules.0))
    ∙ (ap some (outcome-rules t t' (1 + length (now ∷ times)) (last_of now times) 0 rules)
        ∙ ap (λ n. some (outcome t n (last_of now times) 0)) sum)

-- An address with no record fails in a burst, `max` times at most. It is then blocked by the last
-- of `max` failures, until `lockout` after it and no longer, and by fewer it is never blocked.
pub blocked-burst :
    (t : Throttle) (key : Text) (first : ℕ) (times : List ℕ) (now later : ℕ)
    → Distinct t.m
    → lookup key t.m ≡ none
    → IsBurst t.window first times
    → length (first ∷ times) ≤ t.max
    → 1 ≤ now
    → (blocked (fail_all t key (first ∷ times)) now later key).0 ≡ (
        if length (first ∷ times) == t.max
        then leb now (last_of first times + t.lockout)
        else false)
unfolding blocked blocked_at
blocked-burst t key first times now later d e b le clock =
    rw (burst-outcome t key first times d e b le) (ground arith)
