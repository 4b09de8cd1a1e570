-- ===== src/Auth/Throttle/Flood.antt =====
-- The number of entries under a flood of new addresses.
use orxies.Prelude.{
  ℕ, suc, ◌+◌, ◌≡◌, ◌≢◌, refl, ap, ◌∙◌, false, not, List, [], ◌∷◌, none, arith, length, Text,
  text_eq_iff, text_key, lookup, insert, keep, lookup-insert, length-insert,
}
use orxies.Auth.Throttle.{Throttle, Attempt, is_stale, prune, or_new, bump, record_failure, fail}

-- Every address in turn fails once, at one moment.
unfoldable pub flood : Throttle → ℕ → List Text → Throttle
flood t now [] = t
flood t now (k ∷ ks) = flood (fail t now k) now ks

abbrev pub NotIn : Text → List Text → Type 0
NotIn k [] = Unit
NotIn k (j ∷ js) = (k ≢ j) × NotIn k js

abbrev pub AllDistinct : List Text → Type 0
AllDistinct [] = Unit
AllDistinct (k ∷ ks) = NotIn k ks × AllDistinct ks

abbrev pub AllFresh : ℕ → ℕ → List (Text × Attempt) → Type 0
AllFresh window now [] = Unit
AllFresh window now ((k, a) ∷ m) = (is_stale window now a ≡ false) × AllFresh window now m

abbrev pub Untracked : List (Text × Attempt) → List Text → Type 0
Untracked m [] = Unit
Untracked m (k ∷ ks) = (lookup k m ≡ none) × Untracked m ks

keep_fresh :
    (window now : ℕ) (m : List (Text × Attempt))
    → AllFresh window now m
    → keep (λ k a. not (is_stale window now a)) m ≡ m
unfolding keep
keep_fresh window now [] f = refl
keep_fresh window now ((k, a) ∷ m) f = ground (arith, keep_fresh window now m)

prune_fresh : (t : Throttle) (now : ℕ) → AllFresh t.window now t.m → prune t now ≡ t
unfolding prune
prune_fresh t now f = ground (arith, keep_fresh t.window now t.m)

bump_fresh : (t : Throttle) (now : ℕ) (a : Attempt) → is_stale t.window now (bump t now a) ≡ false
unfolding bump is_stale
bump_fresh t now a = ground arith

insert-AllFresh :
    (window now : ℕ) (k : Text) (a : Attempt) (m : List (Text × Attempt))
    → is_stale window now a ≡ false
    → AllFresh window now m
    → AllFresh window now (insert k a m)
unfolding insert
insert-AllFresh window now k a [] h f = (h, tt)
insert-AllFresh window now k a ((j, b) ∷ m) h f = ground (arith, insert-AllFresh window now k a m h)

insert-Untracked :
    (k : Text) (a : Attempt) (m : List (Text × Attempt)) (ks : List Text)
    → NotIn k ks
    → Untracked m ks
    → Untracked (insert k a m) ks
insert-Untracked k a m [] d u = tt
insert-Untracked k a m (j ∷ ks) d u = (
  rw (lookup-insert k j a m) (ground (arith, text_eq_iff k j)),
  insert-Untracked k a m ks d.1 u.1,
)

length-insert_new :
    (k : Text) (a : Attempt) (m : List (Text × Attempt))
    → lookup k m ≡ none
    → length (insert k a m) ≡ suc (length m)
length-insert_new k a m h = ground (arith, h, length-insert k a m)

-- Every address of a flood gets an entry of its own, however many there are: `max_keys` starts the
-- search for stale entries and is no bound on the map.
pub flood_grows :
    (t : Throttle) (now : ℕ) (ks : List Text)
    → AllFresh t.window now t.m
    → Untracked t.m ks
    → AllDistinct ks
    → length (flood t now ks).m ≡ length t.m + length ks
unfolding flood fail record_failure
flood_grows t now [] f u d = omega arith
flood_grows t now (k ∷ ks) f u d =
    let a = bump t now (or_new (lookup k t.m)) in
    let t' : Throttle = record t { m = insert k a t.m } in
    let fresh = insert-AllFresh t.window now k a t.m (bump_fresh t now _) f in
    let absent = insert-Untracked k a t.m ks d.0 u.1 in
    let unpruned =
      ap (λ v. length (flood (record_failure v now k) now ks).m) (prune_fresh t now f) in
    unpruned ∙ omega (arith, flood_grows t' now ks fresh absent d.1, length-insert_new k a t.m u.0)
