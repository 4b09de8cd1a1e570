-- ===== src/Deploy/Containers/Drains.antt =====
-- internal/deploy/deploy.go: what drainOld does to the older deployments and to the one it keeps.
use orxies.Prelude.{
  ℕ, ◌≡◌, ◌⊎◌, refl, Bool, true, false, ◌&&◌, not, List, [], ◌∷◌, some, ◌==◌, nat_key, lookup,
  arith, Bool-cases, inl, inr, ap, ◌∙◌,
}
use mathlib.Core.Path.{subst}
use orxies.Store.Deployments.{
  Deployment, status_stopped, update_rows, find_row, rows_of, list_deployments,
}
use orxies.Store.Ports.{PortTable}
use orxies.Store.Ports.Lowest.{release_port-lookup}
use orxies.Deploy.{Manager, World}
use orxies.Deploy.Containers.{skips, freed, retire, drain, drain_old}
use orxies.Deploy.Containers.Ports.{AllOwned, Owned, freed-AllOwned}

-- The port of the deployment that is kept stays with it.
freed-keeps :
    (t : PortTable) (d : Deployment) (keep port : ℕ)
    → skips keep d ≡ false
    → Owned t d
    → lookup port t ≡ some keep
    → lookup port (freed t d.host_port) ≡ some keep
freed-keeps t d keep port old own h = elim (Bool-cases (d.host_port == 0)) [
  | inl bare ↦ rw bare h
  | inr real ↦ elim (Bool-cases (d.host_port == port)) [
    | inr apart ↦ ground (arith, real, apart, h, release_port-lookup t d.host_port port)
    | inl same ↦
        let owner : keep ≡ d.id = own (ground (arith, old, real)) keep (ground (arith, same, h)) in
        absurd (ground (arith, owner, old))
  ]
]

pub drain-lookup :
    {D : Type 0} (m : Manager D) (w : World D) (keep port : ℕ) (ds : List Deployment)
    → AllOwned w.ports ds
    → lookup port w.ports ≡ some keep
    → lookup port (drain m w keep ds).ports ≡ some keep
unfolding drain retire
drain-lookup m w keep port [] own h = h
drain-lookup m w keep port (d ∷ ds) own h = elim (Bool-cases (skips keep d)) [
  | inl skipped ↦ rw (skipped, drain) (drain-lookup m w keep port ds own.1 h)
  | inr old ↦
      rw (old, drain)
        (drain-lookup m (retire m w d) keep port ds (freed-AllOwned w.ports d.host_port ds own.1)
          (freed-keeps w.ports d keep port old own.0 h))
]

pub find_row-update_rows_ne :
    (d : Deployment) (rows : List Deployment) (n : ℕ)
    → (d.id == n) ≡ false
    → find_row n (update_rows d rows) ≡ find_row n rows
unfolding find_row update_rows
find_row-update_rows_ne d [] n h = refl
find_row-update_rows_ne d (row ∷ rows) n h = ground (arith, find_row-update_rows_ne d rows n h)

-- The row of the deployment that is kept stays as it is.
pub drain-find_row :
    {D : Type 0} (m : Manager D) (w : World D) (keep : ℕ) (ds : List Deployment)
    → find_row keep (drain m w keep ds).deployments.rows ≡ find_row keep w.deployments.rows
unfolding drain retire
drain-find_row m w keep [] = refl
drain-find_row m w keep (d ∷ ds) = elim (Bool-cases (skips keep d)) [
  | inl skipped ↦ rw (skipped, drain) (drain-find_row m w keep ds)
  | inr old ↦
      let stopped = record d { status = status_stopped } in
      let other : (d.id == keep) ≡ false = ground (arith, old) in
      rw (old, drain)
        (drain-find_row m (retire m w d) keep ds
          ∙ find_row-update_rows_ne stopped w.deployments.rows keep other)
]

pub drain-files :
    {D : Type 0} (m : Manager D) (w : World D) (keep : ℕ) (ds : List Deployment)
    → (drain m w keep ds).files ≡ w.files
unfolding drain retire
drain-files m w keep [] = refl
drain-files m w keep (d ∷ ds) = elim (Bool-cases (skips keep d)) [
  | inl skipped ↦ rw (skipped, drain) (drain-files m w keep ds)
  | inr old ↦ rw (old, drain) (drain-files m (retire m w d) keep ds)
]

-- A row that is to be drained: of the project, with a container, not stopped and not the one kept.
abbrev pub is_old : ℕ → ℕ → Deployment → Bool
is_old project keep d = d.project_id == project && not (skips keep d)

abbrev Among : Deployment → List Deployment → Type 0
Among r [] = ⊥
Among r (d ∷ ds) = (r ≡ d) ⊎ Among r ds

-- The rows that are still to be drained are in the rest of the loop.
abbrev Left : ℕ → ℕ → List Deployment → List Deployment → Type 0
Left project keep ds [] = Unit
Left project keep ds (r ∷ rows) =
    (is_old project keep r ≡ true → Among r ds) × Left project keep ds rows

abbrev pub NoneOld : ℕ → ℕ → List Deployment → Type 0
NoneOld project keep [] = Unit
NoneOld project keep (r ∷ rows) = (is_old project keep r ≡ false) × NoneOld project keep rows

Left-more :
    (project keep : ℕ) (d : Deployment) (ds rows : List Deployment)
    → Left project keep ds rows
    → Left project keep (d ∷ ds) rows
Left-more project keep d ds [] h = tt
Left-more project keep d ds (r ∷ rows) h =
    (λ old. inr (h.0 old), Left-more project keep d ds rows h.1)

rows_of-Left :
    (project keep : ℕ) (rows : List Deployment) → Left project keep (rows_of project rows) rows
unfolding rows_of
rows_of-Left project keep [] = tt
rows_of-Left project keep (r ∷ rows) = elim (Bool-cases (r.project_id == project)) [
  | inl mine ↦
      let e : r ∷ rows_of project rows ≡ rows_of project (r ∷ rows) = ground (arith, mine) in
      subst (λ ds. Left project keep ds (r ∷ rows)) e
        (
          λ old. inl refl,
          Left-more project keep r (rows_of project rows) rows (rows_of-Left project keep rows),
        )
  | inr foreign ↦
      let e : rows_of project rows ≡ rows_of project (r ∷ rows) = ground (arith, foreign) in
      subst (λ ds. Left project keep ds (r ∷ rows)) e
        (λ old. absurd (ground (arith, old, foreign)), rows_of-Left project keep rows)
]

skip-Left :
    (project keep : ℕ) (d : Deployment) (ds rows : List Deployment)
    → skips keep d ≡ true
    → Left project keep (d ∷ ds) rows
    → Left project keep ds rows
skip-Left project keep d ds [] s h = tt
skip-Left project keep d ds (r ∷ rows) s h = (
  λ old. elim (h.0 old) [
    | inl e ↦ absurd (ground (arith, old, s, ap (skips keep) e))
    | inr later ↦ later
  ],
  skip-Left project keep d ds rows s h.1,
)

retire-Left :
    (project keep : ℕ) (d : Deployment) (ds rows : List Deployment)
    → Left project keep (d ∷ ds) rows
    → Left project keep ds (update_rows (record d { status = status_stopped }) rows)
unfolding update_rows
retire-Left project keep d ds [] h = tt
retire-Left project keep d ds (r ∷ rows) h = elim (Bool-cases (r.id == d.id)) [
  | inl same ↦ rw same (λ old. absurd (ground arith), retire-Left project keep d ds rows h.1)
  | inr other ↦ rw other (
    λ old. elim (h.0 old) [
      | inl e ↦ absurd (ground (arith, other, ap (λ x. x.id) e))
      | inr later ↦ later
    ],
    retire-Left project keep d ds rows h.1,
  )
]

Left-NoneOld :
    (project keep : ℕ) (rows : List Deployment)
    → Left project keep [] rows
    → NoneOld project keep rows
Left-NoneOld project keep [] h = tt
Left-NoneOld project keep (r ∷ rows) h = elim (Bool-cases (is_old project keep r)) [
  | inl old ↦ absurd (h.0 old)
  | inr quiet ↦ (quiet, Left-NoneOld project keep rows h.1)
]

drain-NoneOld :
    {D : Type 0} (m : Manager D) (w : World D) (project keep : ℕ) (ds : List Deployment)
    → Left project keep ds w.deployments.rows
    → NoneOld project keep (drain m w keep ds).deployments.rows
unfolding drain retire
drain-NoneOld m w project keep [] h = Left-NoneOld project keep w.deployments.rows h
drain-NoneOld m w project keep (d ∷ ds) h = elim (Bool-cases (skips keep d)) [
  | inl skipped ↦
      rw (skipped, drain)
        (drain-NoneOld m w project keep ds
          (skip-Left project keep d ds w.deployments.rows skipped h))
  | inr old ↦
      rw (old, drain)
        (drain-NoneOld m (retire m w d) project keep ds
          (retire-Left project keep d ds w.deployments.rows h))
]

-- After draining, every row of the project with a container is stopped or is the one that is kept.
pub drain_old-NoneOld :
    {D : Type 0} (m : Manager D) (w : World D) (project keep : ℕ)
    → NoneOld project keep (drain_old m w project keep).deployments.rows
unfolding drain_old
drain_old-NoneOld m w project keep =
    drain-NoneOld m w project keep (list_deployments w.deployments project)
      (rows_of-Left project keep w.deployments.rows)
