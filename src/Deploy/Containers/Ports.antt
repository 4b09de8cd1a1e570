-- ===== src/Deploy/Containers/Ports.antt =====
-- internal/deploy/deploy.go: the ports of the deployments that are not stopped.
use orxies.Prelude.{
  ℕ, ◌≡◌, Bool, true, false, ◌||◌, not, List, [], ◌∷◌, none, some, ◌==◌, text_eq, nat_key, lookup,
  insert, lookup-insert, arith, Bool-cases, inl, inr,
}
use orxies.Store.Deployments.{Deployment, status_stopped, update_rows, rows_of}
use orxies.Store.Ports.{PortTable}
use orxies.Store.Ports.Lowest.{release_port-lookup}
use orxies.Deploy.{Manager, World}
use orxies.Deploy.Containers.{skips, freed, retire, drain}

-- A deployment that is not stopped and has a port.
abbrev pub is_live : Deployment → Bool
is_live d = not (text_eq d.status status_stopped || d.host_port == 0)

abbrev pub Holds : PortTable → Deployment → Type 0
Holds t d = is_live d ≡ true → lookup d.host_port t ≡ some d.id

-- Every live row has its port in the table, under its own number.
abbrev pub Held : PortTable → List Deployment → Type 0
Held t [] = Unit
Held t (d ∷ ds) = Holds t d × Held t ds

abbrev pub IsHeld : {D : Type 0} → World D → Type 0
IsHeld w = Held w.ports w.deployments.rows

-- Nobody else has the port of a live row.
abbrev pub Owned : PortTable → Deployment → Type 0
Owned t d = is_live d ≡ true → (k : ℕ) → lookup d.host_port t ≡ some k → k ≡ d.id

abbrev pub AllOwned : PortTable → List Deployment → Type 0
AllOwned t [] = Unit
AllOwned t (d ∷ ds) = Owned t d × AllOwned t ds

pub update_rows-Held :
    (t : PortTable) (d : Deployment) (rows : List Deployment)
    → Holds t d
    → Held t rows
    → Held t (update_rows d rows)
unfolding update_rows
update_rows-Held t d [] hd h = tt
update_rows-Held t d (row ∷ rows) hd h = elim (Bool-cases (row.id == d.id)) [
  | inl same ↦ rw same (λ live. ground (arith, hd live, same), update_rows-Held t d rows hd h.1)
  | inr other ↦ rw other (h.0, update_rows-Held t d rows hd h.1)
]

pub insert-Held :
    (t : PortTable) (port owner : ℕ) (rows : List Deployment)
    → lookup port t ≡ none
    → Held t rows
    → Held (insert port owner t) rows
insert-Held t port owner [] free h = tt
insert-Held t port owner (d ∷ ds) free h = (
  λ live. ground (arith, h.0 live, free, lookup-insert port d.host_port owner t),
  insert-Held t port owner ds free h.1,
)

freed-lookup :
    (t : PortTable) (port q k : ℕ) → lookup q (freed t port) ≡ some k → lookup q t ≡ some k
freed-lookup t port q k h = ground (arith, release_port-lookup t port q)

pub freed-AllOwned :
    (t : PortTable) (port : ℕ) (ds : List Deployment) → AllOwned t ds → AllOwned (freed t port) ds
freed-AllOwned t port [] h = tt
freed-AllOwned t port (d ∷ ds) h =
    (λ live k e. h.0 live k (freed-lookup t port d.host_port k e), freed-AllOwned t port ds h.1)

-- Giving back the port of `d` takes it from no row that is live once `d` is stopped.
freed-Holds :
    (t : PortTable) (d row : Deployment)
    → text_eq d.status status_stopped ≡ false
    → (row.id == d.id) ≡ false
    → Owned t d
    → Holds t row
    → Holds (freed t d.host_port) row
freed-Holds t d row unstopped other own h live = elim (Bool-cases (d.host_port == 0)) [
  | inl bare ↦ rw bare (h live)
  | inr port ↦
      let mine : is_live d ≡ true = ground (arith, unstopped, port) in
      elim (Bool-cases (d.host_port == row.host_port)) [
        | inl same ↦
            let owner : row.id ≡ d.id = own mine row.id (ground (arith, same, h live)) in
            absurd (ground (arith, owner, other))
        | inr apart ↦
            ground (arith, port, apart, h live, release_port-lookup t d.host_port row.host_port)
      ]
]

freed-Held :
    (t : PortTable) (d : Deployment) (rows : List Deployment)
    → text_eq d.status status_stopped ≡ false
    → Owned t d
    → Held t rows
    → Held (freed t d.host_port) (update_rows (record d { status = status_stopped }) rows)
unfolding update_rows
freed-Held t d [] unstopped own h = tt
freed-Held t d (row ∷ rows) unstopped own h = elim (Bool-cases (row.id == d.id)) [
  | inl same ↦ rw same (λ live. absurd (ground arith), freed-Held t d rows unstopped own h.1)
  | inr other ↦
      rw other (freed-Holds t d row unstopped other own h.0, freed-Held t d rows unstopped own h.1)
]

skips-unstopped :
    (keep : ℕ) (d : Deployment) → skips keep d ≡ false → text_eq d.status status_stopped ≡ false
skips-unstopped keep d h = ground arith

pub drain-Held :
    {D : Type 0} (m : Manager D) (w : World D) (keep : ℕ) (ds : List Deployment)
    → AllOwned w.ports ds
    → IsHeld w
    → IsHeld (drain m w keep ds)
unfolding drain retire
drain-Held m w keep [] own h = h
drain-Held m w keep (d ∷ ds) own h = elim (Bool-cases (skips keep d)) [
  | inl skipped ↦ rw (skipped, drain) (drain-Held m w keep ds own.1 h)
  | inr old ↦
      let next = retire m w d in
      rw (old, drain)
        (drain-Held m next keep ds (freed-AllOwned w.ports d.host_port ds own.1)
          (freed-Held w.ports d w.deployments.rows (skips-unstopped keep d old) own.0 h))
]

Holds-Owned : (t : PortTable) (d : Deployment) → Holds t d → Owned t d
Holds-Owned t d h live k e = ground (arith, h live, e)

pub rows_of-AllOwned :
    (t : PortTable) (project : ℕ) (rows : List Deployment)
    → Held t rows
    → AllOwned t (rows_of project rows)
unfolding rows_of
rows_of-AllOwned t project [] h = tt
rows_of-AllOwned t project (d ∷ ds) h = elim (Bool-cases (d.project_id == project)) [
  | inl mine ↦ rw mine (Holds-Owned t d h.0, rows_of-AllOwned t project ds h.1)
  | inr foreign ↦ rw foreign (rows_of-AllOwned t project ds h.1)
]
