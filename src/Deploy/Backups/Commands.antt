-- ===== src/Deploy/Backups/Commands.antt =====
-- internal/deploy/services.go: the programs that dump a database and read a dump.
use orxies.Prelude.{
  ◌≡◌, refl, ap, ◌∙◌, true, List, Option, none, some, Text, text_eq, text_eq_iff, ◌⊎◌, sym, false,
  [], ◌∷◌, text_key, codes, arith, Bool-cases, Option-cases, inl, inr,
}
use orxies.Store.Services.{Service}
use orxies.Agent.{ExecSpec}
use orxies.Deploy.{Creds}
use orxies.Deploy.Services.{EnvMap, service_name}
use orxies.Deploy.Backups.{dump_command, restore_command, exec_spec}

-- What can be dumped can be restored.
pub restore_command-dump_command :
    (engine : Text) (c : Creds) (out : EnvMap × List Text)
    → dump_command engine c ≡ some out
    → (back : EnvMap × List Text) × (restore_command engine c ≡ some back)
unfolding dump_command restore_command
restore_command-dump_command engine c out h = elim (Option-cases (restore_command engine c)) [
  | inr (back, e) ↦ (back, e)
  | inl gone ↦ elim (Bool-cases (text_eq engine (codes "postgres"))) [
    | inl postgres ↦ absurd (ground (arith, gone, postgres))
    | inr other ↦ absurd (ground (arith, h, gone, other))
  ]
]

-- A program that is run in the container of a service, its password in the environment.
abbrev pub Runs : ExecSpec → Service → Creds → Text → List Text → Type 0
Runs spec svc c variable cmd =
    (spec.container ≡ service_name svc.name)
    × (spec.env ≡ (variable, c.pass) ∷ [])
    × (spec.cmd ≡ cmd)

-- How the databases are dumped, and how they read a dump.
abbrev pub Programs : Service → Creds → ExecSpec → ExecSpec → Type 0
Programs svc c out back =
    ((svc.engine ≡ codes "postgres")
      × Runs out svc c (codes "PGPASSWORD") (codes "pg_dump" ∷ codes "-U" ∷ c.user ∷ c.db ∷ [])
      × Runs back svc c (codes "PGPASSWORD") (codes "psql" ∷ codes "-U" ∷ c.user ∷ c.db ∷ []))
    ⊎ ((svc.engine ≡ codes "mysql")
        × Runs out svc c (codes "MYSQL_PWD") (codes "mysqldump" ∷ codes "-u" ∷ c.user ∷ c.db ∷ [])
        × Runs back svc c (codes "MYSQL_PWD") (codes "mysql" ∷ codes "-u" ∷ c.user ∷ c.db ∷ []))

some-eq : {A : Type 0} (a b : A) → ◌≡◌ {A = Option A} (some a) (some b) → a ≡ b
some-eq a b e = ap (λ o. elim o [ none ↦ a | some x ↦ x ]) e

-- The words of two commands, once the engine is known.
dump_command-postgres :
    (engine : Text) (c : Creds)
    → text_eq engine (codes "postgres") ≡ true
    → dump_command engine c
      ≡ some ((codes "PGPASSWORD", c.pass) ∷ [], codes "pg_dump" ∷ codes "-U" ∷ c.user ∷ c.db ∷ [])
unfolding dump_command
dump_command-postgres engine c h = rw h refl

restore_command-postgres :
    (engine : Text) (c : Creds)
    → text_eq engine (codes "postgres") ≡ true
    → restore_command engine c
      ≡ some ((codes "PGPASSWORD", c.pass) ∷ [], codes "psql" ∷ codes "-U" ∷ c.user ∷ c.db ∷ [])
unfolding restore_command
restore_command-postgres engine c h = rw h refl

dump_command-mysql :
    (engine : Text) (c : Creds)
    → text_eq engine (codes "postgres") ≡ false
    → text_eq engine (codes "mysql") ≡ true
    → dump_command engine c
      ≡ some ((codes "MYSQL_PWD", c.pass) ∷ [], codes "mysqldump" ∷ codes "-u" ∷ c.user ∷ c.db ∷ [])
unfolding dump_command
dump_command-mysql engine c h g = rw (h, g) refl

restore_command-mysql :
    (engine : Text) (c : Creds)
    → text_eq engine (codes "postgres") ≡ false
    → text_eq engine (codes "mysql") ≡ true
    → restore_command engine c
      ≡ some ((codes "MYSQL_PWD", c.pass) ∷ [], codes "mysql" ∷ codes "-u" ∷ c.user ∷ c.db ∷ [])
unfolding restore_command
restore_command-mysql engine c h g = rw (h, g) refl

unknown :
    (engine : Text) (c : Creds) (out : EnvMap × List Text)
    → text_eq engine (codes "postgres") ≡ false
    → text_eq engine (codes "mysql") ≡ false
    → dump_command engine c ≡ some out
    → ⊥
unfolding dump_command
unknown engine c out h g o = absurd (ground (arith, h, g, o))

pub commands-Programs :
    (svc : Service) (c : Creds) (out back : EnvMap × List Text)
    → dump_command svc.engine c ≡ some out
    → restore_command svc.engine c ≡ some back
    → Programs svc c (exec_spec svc out) (exec_spec svc back)
commands-Programs svc c out back o b = elim (Bool-cases (text_eq svc.engine (codes "postgres"))) [
  | inl postgres ↦
      let dump = some-eq _ out (sym (dump_command-postgres svc.engine c postgres) ∙ o) in
      let restore = some-eq _ back (sym (restore_command-postgres svc.engine c postgres) ∙ b) in
      inl (
        (text_eq_iff svc.engine (codes "postgres")).0 postgres,
        (refl, sym (ap (λ r. r.0) dump), sym (ap (λ r. r.1) dump)),
        (refl, sym (ap (λ r. r.0) restore), sym (ap (λ r. r.1) restore)),
      )
  | inr other ↦ elim (Bool-cases (text_eq svc.engine (codes "mysql"))) [
    | inl mysql ↦
        let dump = some-eq _ out (sym (dump_command-mysql svc.engine c other mysql) ∙ o) in
        let restore = some-eq _ back (sym (restore_command-mysql svc.engine c other mysql) ∙ b) in
        inr (
          (text_eq_iff svc.engine (codes "mysql")).0 mysql,
          (refl, sym (ap (λ r. r.0) dump), sym (ap (λ r. r.1) dump)),
          (refl, sym (ap (λ r. r.0) restore), sym (ap (λ r. r.1) restore)),
        )
    | inr neither ↦ absurd (unknown svc.engine c out other neither o)
  ]
]
