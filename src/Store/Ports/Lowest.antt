-- ===== src/Store/Ports/Lowest.antt =====
-- internal/store/ports.go: which port is handed out, and what it does to the table.
use orxies.Prelude.{
  ℕ, zero, suc, ◌+◌, ◌-◌, ◌≤◌, ◌<◌, ◌≡◌, ◌≢◌, refl, ◌==◌, if◌then◌else◌, Option, none, some,
  nat_key, lookup, insert, lookup-delete, arith, Bool-cases, inl, inr,
}
use mathlib.Core.Path.{subst}
use orxies.Store.Ports.{PortTable, asked, allocate_from, allocate_port, release_port}

-- What an allocation may answer: the lowest port of the range that nobody has, which is entered
-- for the deployment, or nothing, and then every port of the range is taken.
abbrev pub Lowest : PortTable → ℕ → ℕ → ℕ → PortTable × Option ℕ → Type 0
Lowest t deployment lo hi (t', none) = (t' ≡ t) × ((q : ℕ) → lo ≤ q → q < hi → lookup q t ≢ none)
Lowest t deployment lo hi (t', some p) =
    (t' ≡ insert p deployment t)
    × (lookup p t ≡ none)
    × (lo ≤ p)
    × (p < hi)
    × ((q : ℕ) → lo ≤ q → q < p → lookup q t ≢ none)

later :
    (t : PortTable) (deployment n p d : ℕ) (r : PortTable × Option ℕ)
    → lookup p t ≡ some d
    → Lowest t deployment (suc p) (n + suc p) r
    → Lowest t deployment p (suc n + p) r
later t deployment n p d (t', none) e (same, taken) = (
  same,
  λ q le lt. elim (Bool-cases (p == q)) [
    | inl eq ↦ λ h. ground (arith, e, h, eq)
    | inr ne ↦ taken q (ground (arith, ne)) (omega arith)
  ],
)
later t deployment n p d (t', some f) e (same, free, lower, upper, taken) = (
  same,
  free,
  omega arith,
  omega arith,
  λ q le lt. elim (Bool-cases (p == q)) [
    | inl eq ↦ λ h. ground (arith, e, h, eq)
    | inr ne ↦ taken q (ground (arith, ne)) lt
  ],
)

asked-Lowest :
    (n p : ℕ) (t : PortTable) (deployment : ℕ) (rest : PortTable × Option ℕ) (o : Option ℕ)
    → lookup p t ≡ o
    → Lowest t deployment (suc p) (n + suc p) rest
    → Lowest t deployment p (suc n + p) (asked p t deployment rest o)
asked-Lowest n p t deployment rest none e h =
    (refl, e, omega arith, omega arith, λ q le lt. absurd (omega arith))
asked-Lowest n p t deployment rest (some d) e h = later t deployment n p d rest e h

allocate_from-Lowest :
    (n p : ℕ) (t : PortTable) (deployment : ℕ)
    → Lowest t deployment p (n + p) (allocate_from n p t deployment)
unfolding allocate_from
allocate_from-Lowest zero p t deployment = (refl, λ q le lt. absurd (omega arith))
allocate_from-Lowest (suc n) p t deployment =
    asked-Lowest n p t deployment (allocate_from n (suc p) t deployment) (lookup p t) refl
      (allocate_from-Lowest n (suc p) t deployment)

-- An allocation hands out the lowest free port of its range and enters it for the deployment, or
-- finds every port of the range taken and changes nothing.
pub allocate_port-Lowest :
    (t : PortTable) (deployment lo hi : ℕ)
    → lo ≤ suc hi
    → Lowest t deployment lo (suc hi) (allocate_port t deployment lo hi)
unfolding allocate_port
allocate_port-Lowest t deployment lo hi h =
    subst (λ m. Lowest t deployment lo m (allocate_from (suc hi - lo) lo t deployment))
      (omega arith) (allocate_from-Lowest (suc hi - lo) lo t deployment)

-- A port that is given back is free, every other one is as it was.
pub release_port-lookup :
    (t : PortTable) (port q : ℕ)
    → lookup q (release_port t port) ≡ (if port == q then none else lookup q t)
unfolding release_port
release_port-lookup t port q = lookup-delete port q t
