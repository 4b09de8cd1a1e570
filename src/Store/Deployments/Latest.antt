-- ===== src/Store/Deployments/Latest.antt =====
-- internal/store/deployments.go: numbers are given once, and the latest deployment has the greatest.
use orxies.Prelude.{
  ℕ, suc, refl, ap, ◌∙◌, true, false, Option, none, if◌then◌else◌, ◌-◌, ◌≤◌, ◌≡◌, List, [], ◌∷◌,
  some, ◌==◌, arith, Bool-cases, inl, inr,
}
use mathlib.Core.Path.{subst}
use orxies.Store.Deployments.{
  Deployment, DeploymentTable, create_deployment, update_rows, update_deployment, find_row,
  get_deployment, first_of, new_row, latest_deployment,
}

-- The numbers of the rows fall from the first row on, and are at most `top`.
abbrev pub Falling : ℕ → List Deployment → Type 0
Falling top [] = Unit
Falling top (row ∷ rows) = (1 ≤ row.id) × (row.id ≤ top) × Falling (row.id - 1) rows

abbrev pub IsSound : DeploymentTable → Type 0
IsSound t = Falling t.seq t.rows

pub data Change : Type 0 where
  create : ℕ → Deployment → Change
  update : Deployment → Change

unfoldable pub changed : DeploymentTable → Change → DeploymentTable
unfolding create_deployment update_rows
changed t (Change.create now d) = (create_deployment t now d).0
changed t (Change.update d) = update_deployment t d

unfoldable pub run : DeploymentTable → List Change → DeploymentTable
unfolding changed
run t [] = t
run t (c ∷ cs) = run (changed t c) cs

update_rows-Falling :
    (top : ℕ) (d : Deployment) (rows : List Deployment)
    → Falling top rows
    → Falling top (update_rows d rows)
unfolding update_rows
update_rows-Falling top d [] h = tt
update_rows-Falling top d (row ∷ rows) h = elim (Bool-cases (row.id == d.id)) [
  | inl e ↦ rw e (h.0, h.1, update_rows-Falling (row.id - 1) d rows h.2)
  | inr e ↦ rw e (h.0, h.1, update_rows-Falling (row.id - 1) d rows h.2)
]

changed-IsSound : (t : DeploymentTable) (c : Change) → IsSound t → IsSound (changed t c)
unfolding changed create_deployment
changed-IsSound t (Change.create now d) h =
    (omega arith, omega arith, subst (λ n. Falling n t.rows) (omega arith) h)
changed-IsSound t (Change.update d) h = update_rows-Falling t.seq d t.rows h

-- What a row is after an update of the deployment `d`: its project and its time of creation stay.
abbrev pub written : ℕ → Deployment → Option Deployment → Option Deployment
written n d none = none
written n d (some row) =
    if d.id == n
    then some (record d { id = row.id; project_id = row.project_id; created_at = row.created_at })
    else some row

-- The row that is made with the number `n`.
abbrev pub made : ℕ → ℕ → ℕ → Deployment → Option Deployment → Option Deployment
made n id now d old = if id == n then some (new_row id now d) else old

-- The history of one number alone: from the row that it has, by the changes in their order, where
-- `seq` is the last number that was given.
unfoldable pub history : ℕ → ℕ → List Change → Option Deployment → Option Deployment
history n seq [] o = o
history n seq (Change.create now d ∷ cs) o = history n (suc seq) cs (made n (suc seq) now d o)
history n seq (Change.update d ∷ cs) o = history n seq cs (written n d o)

find_row-update_rows :
    (n : ℕ) (d : Deployment) (rows : List Deployment)
    → find_row n (update_rows d rows) ≡ written n d (find_row n rows)
unfolding find_row update_rows
find_row-update_rows n d [] = refl
find_row-update_rows n d (row ∷ rows) = elim (Bool-cases (row.id == n)) [
  | inl own ↦ elim (Bool-cases (row.id == d.id)) [
    | inl same ↦ let is : (d.id == n) ≡ true = ground (arith, own, same) in rw (same, own, is) refl
    | inr differs ↦
        let isnt : (d.id == n) ≡ false = ground (arith, own, differs) in
        rw (differs, own, isnt) refl
  ]
  | inr other ↦ elim (Bool-cases (row.id == d.id)) [
    | inl same ↦ rw (same, other) (find_row-update_rows n d rows)
    | inr differs ↦ rw (differs, other) (find_row-update_rows n d rows)
  ]
]

run-history :
    (n : ℕ) (t : DeploymentTable) (cs : List Change)
    → get_deployment (run t cs) n ≡ history n t.seq cs (get_deployment t n)
unfolding run changed create_deployment history find_row
run-history n t [] = refl
run-history n t (Change.create now d ∷ cs) = run-history n (create_deployment t now d).0 cs
run-history n t (Change.update d ∷ cs) =
    run-history n (update_deployment t d) cs
    ∙ ap (history n t.seq cs) (find_row-update_rows n d t.rows)

changes-IsSound : (t : DeploymentTable) (cs : List Change) → IsSound t → IsSound (run t cs)
unfolding run
changes-IsSound t [] h = h
changes-IsSound t (c ∷ cs) h = changes-IsSound (changed t c) cs (changed-IsSound t c h)

-- Whatever is created and updated, in any order, the rows of the table stay in the order of their
-- numbers, newest first, with no number given twice. And every number has the row that its own
-- history makes: an update writes to the row of its number and to no other, and leaves its project
-- and its time of creation.
pub run-IsSound :
    (t : DeploymentTable) (cs : List Change) (n : ℕ)
    → IsSound t
    → IsSound (run t cs) × (get_deployment (run t cs) n ≡ history n t.seq cs (get_deployment t n))
run-IsSound t cs n h = (changes-IsSound t cs h, run-history n t cs)

find_row-le :
    (top n : ℕ) (rows : List Deployment) (row : Deployment)
    → Falling top rows
    → find_row n rows ≡ some row
    → n ≤ top
unfolding find_row
find_row-le top n [] row h e = ground arith
find_row-le top n (r ∷ rows) row h e = elim (Bool-cases (r.id == n)) [
  | inl own ↦ ground (arith, own, h.0, h.1)
  | inr other ↦
      let found : find_row n rows ≡ some row = ground (arith, other) in
      let below = find_row-le (r.id - 1) n rows row h.2 found in omega (arith, below, h.1)
]

first_of-greatest :
    (project_id top n : ℕ) (rows : List Deployment) (d row : Deployment)
    → Falling top rows
    → first_of project_id rows ≡ some d
    → find_row n rows ≡ some row
    → row.project_id ≡ project_id
    → n ≤ d.id
unfolding first_of find_row
first_of-greatest project_id top n [] d row h e f own = ground arith
first_of-greatest project_id top n (r ∷ rows) d row h e f own =
    elim (Bool-cases (r.project_id == project_id)) [
      | inl mine ↦
          let same : r.id ≡ d.id = ground (arith, mine) in
          elim (Bool-cases (r.id == n)) [
            | inl at ↦ ground (arith, at, same)
            | inr other ↦
                let found : find_row n rows ≡ some row = ground (arith, other) in
                let below = find_row-le (r.id - 1) n rows row h.2 found in
                omega (arith, below, same)
          ]
      | inr foreign ↦
          let first : first_of project_id rows ≡ some d = ground (arith, foreign) in
          elim (Bool-cases (r.id == n)) [
            | inl at ↦ absurd (ground (arith, at, foreign))
            | inr other ↦
                let found : find_row n rows ≡ some row = ground (arith, other) in
                first_of-greatest project_id (r.id - 1) n rows d row h.2 first found own
          ]
    ]

-- The latest deployment of a project has the greatest number of all its deployments.
pub latest_deployment-greatest :
    (t : DeploymentTable) (project_id n : ℕ) (d row : Deployment)
    → IsSound t
    → latest_deployment t project_id ≡ some d
    → get_deployment t n ≡ some row
    → row.project_id ≡ project_id
    → n ≤ d.id
latest_deployment-greatest t project_id n d row h e f own =
    first_of-greatest project_id t.seq n t.rows d row h e f own
