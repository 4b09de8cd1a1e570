-- ===== src/Prelude/Sorting.antt =====
-- Go's `sort.Slice` by a test, and the order of texts by `<`. Elements that tie stand in the order in
-- which they came.
use Prim.Native.Nat.{ℕ, zero, suc, ◌≤◌}
use mathlib.Core.Path.{◌≡◌}
use mathlib.Core.Bool.{Bool, true, false, ◌&&◌, ◌||◌}
use mathlib.Core.List.{List, [], ◌∷◌, Perm}
use mathlib.Core.List.Perm
use native.Mathlib.Omega.{arith}
use orxies.Prelude.Tests.{ltb, ◌==◌, if◌then◌else◌, Bool-cases}
use mathlib.Core.Logic.{inl, inr}
use orxies.Prelude.Keys.{Text}
use orxies.Prelude.Lists.{take, drop}

abbrev pub text_ltb : Text → Text → Bool
text_ltb s [] = false
text_ltb [] (b ∷ t) = true
text_ltb (a ∷ s) (b ∷ t) = ltb a b || (a == b && text_ltb s t)

module _ {ℓ} {A : Type ℓ} (less : A → A → Bool) where
  unfoldable pub insert_sorted : A → List A → List A
  insert_sorted x [] = x ∷ []
  insert_sorted x (y ∷ ys) =
      let rest = insert_sorted x ys in if less y x then y ∷ rest else x ∷ y ∷ ys

  unfoldable pub sort_by : List A → List A
  unfolding insert_sorted
  sort_by [] = []
  sort_by (x ∷ xs) = insert_sorted x (sort_by xs)

abbrev pub All {ℓ κ} : {A : Type ℓ} → (A → Type κ) → List A → Type κ
All P [] = Unit
All P (x ∷ xs) = P x × All P xs

module _ {ℓ} {A : Type ℓ} (weight : A → ℕ) where
  -- The weights fall, from `top` on.
  abbrev pub Descending : ℕ → List A → Type 0
  Descending top [] = Unit
  Descending top (x ∷ xs) = (weight x ≤ top) × Descending (weight x) xs

  Descending-more : (a b : ℕ) (xs : List A) → a ≤ b → Descending a xs → Descending b xs
  Descending-more a b [] le h = tt
  Descending-more a b (x ∷ xs) le h = (omega arith, h.1)

  abbrev pub Refines : (A → A → Bool) → Type ℓ
  Refines less =
      (x y : A) → (less x y ≡ true → weight y ≤ weight x) × (less x y ≡ false → weight x ≤ weight y)

  insert_sorted-Descending :
      (less : A → A → Bool) (top : ℕ) (x : A) (ys : List A)
      → Refines less
      → weight x ≤ top
      → Descending top ys
      → Descending top (insert_sorted less x ys)
  unfolding insert_sorted
  insert_sorted-Descending less top x [] r le h = (le, tt)
  insert_sorted-Descending less top x (y ∷ ys) r le h = elim (Bool-cases (less y x)) [
    | inl first ↦
        rw first (h.0, insert_sorted-Descending less (weight y) x ys r ((r y x).0 first) h.1)
    | inr second ↦ rw second (le, ((r y x).1 second, h.1))
  ]

  pub sort_by-Descending :
      (less : A → A → Bool) (top : ℕ) (xs : List A)
      → Refines less
      → All (λ x. weight x ≤ top) xs
      → Descending top (sort_by less xs)
  unfolding sort_by
  sort_by-Descending less top [] r h = tt
  sort_by-Descending less top (x ∷ xs) r h =
      insert_sorted-Descending less top x (sort_by less xs) r h.0
        (sort_by-Descending less top xs r h.1)

  Descending-All : (top : ℕ) (xs : List A) → Descending top xs → All (λ x. weight x ≤ top) xs
  Descending-All top [] h = tt
  Descending-All top (x ∷ xs) h =
      (h.0, Descending-All top xs (Descending-more (weight x) top xs h.0 h.1))

  drop-All {κ} : (P : A → Type κ) (n : ℕ) (xs : List A) → All P xs → All P (drop n xs)
  drop-All P zero xs h = h
  drop-All P (suc n) [] h = tt
  drop-All P (suc n) (x ∷ xs) h = drop-All P n xs h.1

  -- Whoever is listed weighs at least as much as whoever is left out.
  abbrev pub Ranked : List A → List A → Type 0
  Ranked listed left = All (λ y. All (λ x. weight x ≤ weight y) left) listed

  pub take-Ranked : (n top : ℕ) (xs : List A) → Descending top xs → Ranked (take n xs) (drop n xs)
  take-Ranked zero top xs h = tt
  take-Ranked (suc n) top [] h = tt
  take-Ranked (suc n) top (x ∷ xs) h = (
    drop-All (λ y. weight y ≤ weight x) n xs (Descending-All (weight x) xs h.1),
    take-Ranked n (weight x) xs h.1,
  )

  pub take-Descending : (n top : ℕ) (xs : List A) → Descending top xs → Descending top (take n xs)
  take-Descending zero top xs h = tt
  take-Descending (suc n) top [] h = tt
  take-Descending (suc n) top (x ∷ xs) h = (h.0, take-Descending n (weight x) xs h.1)

module _ {ℓ} {A : Type ℓ} (less : A → A → Bool) where
  insert_sorted-Perm : (x : A) (ys : List A) → Perm (insert_sorted less x ys) (x ∷ ys)
  unfolding insert_sorted
  insert_sorted-Perm x [] = Perm.refl (x ∷ [])
  insert_sorted-Perm x (y ∷ ys) = elim (Bool-cases (less y x)) [
    | inl first ↦ rw first (Perm.trans (Perm.cons y (insert_sorted-Perm x ys)) (Perm.swap x y ys))
    | inr second ↦ rw second (Perm.refl (x ∷ y ∷ ys))
  ]

  pub sort_by-Perm : (xs : List A) → Perm (sort_by less xs) xs
  unfolding sort_by
  sort_by-Perm [] = Perm.refl []
  sort_by-Perm (x ∷ xs) =
      Perm.trans (insert_sorted-Perm x (sort_by less xs)) (Perm.cons x (sort_by-Perm xs))

module _ {ℓ κ} {A : Type ℓ} (P : A → Type κ) (less : A → A → Bool) where
  insert_sorted-All : (x : A) (ys : List A) → P x → All P ys → All P (insert_sorted less x ys)
  unfolding insert_sorted
  insert_sorted-All x [] px h = (px, tt)
  insert_sorted-All x (y ∷ ys) px h = elim (Bool-cases (less y x)) [
    | inl first ↦ rw first (h.0, insert_sorted-All x ys px h.1)
    | inr second ↦ rw second (px, h)
  ]

  pub sort_by-All : (xs : List A) → All P xs → All P (sort_by less xs)
  unfolding sort_by
  sort_by-All [] h = tt
  sort_by-All (x ∷ xs) h = insert_sorted-All x (sort_by less xs) h.0 (sort_by-All xs h.1)
