-- ===== src/Metrics/Percentiles.antt =====
-- The percentiles of a snapshot.
use native.Mathlib.Nat.{mul-le-mul_left}
use orxies.Prelude.{
  ℕ, zero, suc, ◌-◌, ◌*◌, ◌/◌, ◌≤◌, ◌<◌, List, [], ◌∷◌, arith, leb, if◌then◌else◌, length, get_or,
  take,
}
use orxies.Metrics.{Site, insert_sorted, sort, pct, sorted_latencies, snapshot}

abbrev AllLe : ℕ → List ℕ → Type 0
AllLe a [] = Unit
AllLe a (b ∷ bs) = (a ≤ b) × AllLe a bs

abbrev pub IsSorted : List ℕ → Type 0
IsSorted [] = Unit
IsSorted (a ∷ xs) = AllLe a xs × IsSorted xs

AllLe-trans : (a b : ℕ) (xs : List ℕ) → a ≤ b → AllLe b xs → AllLe a xs
AllLe-trans a b [] h s = tt
AllLe-trans a b (x ∷ xs) h s = (omega arith, AllLe-trans a b xs h s.1)

insert_sorted-AllLe : (a b : ℕ) (xs : List ℕ) → a ≤ b → AllLe a xs → AllLe a (insert_sorted b xs)
unfolding insert_sorted
insert_sorted-AllLe a b [] h s = (h, tt)
insert_sorted-AllLe a b (x ∷ xs) h s = ground (arith, insert_sorted-AllLe a b xs h s.1)

insert_sorted-IsSorted : (b : ℕ) (xs : List ℕ) → IsSorted xs → IsSorted (insert_sorted b xs)
unfolding insert_sorted
insert_sorted-IsSorted b [] s = (tt, tt)
insert_sorted-IsSorted b (x ∷ xs) s =
    ground (arith, insert_sorted-IsSorted b xs s.1, insert_sorted-AllLe x b xs, AllLe-trans b x xs)

sort-IsSorted : (xs : List ℕ) → IsSorted (sort xs)
unfolding sort
sort-IsSorted [] = tt
sort-IsSorted (a ∷ xs) = insert_sorted-IsSorted a (sort xs) (sort-IsSorted xs)

le-get_or : (a j : ℕ) (xs : List ℕ) → AllLe a xs → j < length xs → a ≤ get_or xs j 0
le-get_or a j [] s h = elim h [ ]
le-get_or a zero (x ∷ xs) s h = s.0
le-get_or a (suc j) (x ∷ xs) s h = le-get_or a j xs s.1 (omega arith)

get_or_mono :
    (i j : ℕ) (xs : List ℕ) → IsSorted xs → i ≤ j → j < length xs → get_or xs i 0 ≤ get_or xs j 0
get_or_mono i j [] s le h = elim h [ ]
get_or_mono zero zero (x ∷ xs) s le h = omega arith
get_or_mono zero (suc j) (x ∷ xs) s le h = le-get_or x j xs s.0 (omega arith)
get_or_mono (suc i) zero (x ∷ xs) s le h = absurd (omega arith)
get_or_mono (suc i) (suc j) (x ∷ xs) s le h = get_or_mono i j xs s.1 (omega arith) (omega arith)

abbrev rank : ℕ → ℕ → ℕ
rank n p = if leb n (n * p / 100) then n - 1 else n * p / 100

rank_mono : (n p q : ℕ) → p ≤ q → rank n p ≤ rank n q
rank_mono n p q h = ground (arith, mul-le-mul_left n h)

rank-lt : (n p : ℕ) → 1 ≤ n → rank n p < n
rank-lt n p h = ground arith

pct_mono : (p q : ℕ) (xs : List ℕ) → IsSorted xs → p ≤ q → pct xs p ≤ pct xs q
unfolding pct
pct_mono p q [] s h = omega arith
pct_mono p q (x ∷ xs) s h =
    get_or_mono (rank (length (x ∷ xs)) p) (rank (length (x ∷ xs)) q) (x ∷ xs) s
      (rank_mono (length (x ∷ xs)) p q h) (rank-lt (length (x ∷ xs)) q (omega arith))

-- The three percentiles of a snapshot are in order, whatever was recorded.
pub percentiles_ordered :
    (s : Site) (now : ℕ)
    → ((snapshot s now).p50 ≤ (snapshot s now).p95) × ((snapshot s now).p95 ≤ (snapshot s now).p99)
unfolding snapshot sorted_latencies
percentiles_ordered s now =
    let sorted = sort-IsSorted (take s.latency_n s.latency) in
    (pct_mono 50 95 _ sorted (omega arith), pct_mono 95 99 _ sorted (omega arith))
