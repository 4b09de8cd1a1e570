-- ===== src/Deploy/Backups.antt =====
-- internal/deploy/services.go: the dumps of managed databases. `Dumps` are the directories of
-- BackupsDir with their files; `stamp` is the time of the call as it is printed, and the file is
-- written under another name until it is whole, which leaves no trace.
pub mod Commands
pub mod Roundtrips
pub mod Tests
use orxies.Prelude.{
  ℕ, Bool, true, false, ◌||◌, not, List, [], ◌∷◌, ◌++◌, Option, none, some, if◌then◌else◌, Text,
  text_eq, text_key, codes, is_empty, has_byte, contains, has_suffix, lookup, insert, length,
  text_ltb, sort_by,
}
use orxies.Store.Services.{Service, find_service, get_service}
use orxies.Agent.{ExecSpec}
use orxies.Deploy.{Orchestrator, Creds, Manager, World, safe_name}
use orxies.Deploy.Services.{EnvMap, service_name, decode_creds}
use orxies.Deploy.Provisions.{ServiceError}

unfoldable pub safe_backup_name : Text → Bool
safe_backup_name name = not (
    is_empty name
    || (has_byte name 47 || has_byte name 92)
    || contains name (codes "..")
    || not (has_suffix name (codes ".sql")))

-- The name that the password has in the environment, and the programs.
unfoldable pub dump_command : Text → Creds → Option (EnvMap × List Text)
dump_command engine c =
    if text_eq engine (codes "postgres")
    then some ((codes "PGPASSWORD", c.pass) ∷ [], codes "pg_dump" ∷ codes "-U" ∷ c.user ∷ c.db ∷ [])
    else if text_eq engine (codes "mysql")
    then some
        ((codes "MYSQL_PWD", c.pass) ∷ [], codes "mysqldump" ∷ codes "-u" ∷ c.user ∷ c.db ∷ [])
    else none

unfoldable pub restore_command : Text → Creds → Option (EnvMap × List Text)
restore_command engine c =
    if text_eq engine (codes "postgres")
    then some ((codes "PGPASSWORD", c.pass) ∷ [], codes "psql" ∷ codes "-U" ∷ c.user ∷ c.db ∷ [])
    else if text_eq engine (codes "mysql")
    then some ((codes "MYSQL_PWD", c.pass) ∷ [], codes "mysql" ∷ codes "-u" ∷ c.user ∷ c.db ∷ [])
    else none

abbrev pub Files : Type 0
Files = List (Text × Text)

abbrev pub Dumps : Type 0
Dumps = List (Text × Files)

abbrev pub files_or : Option Files → Files
files_or none = []
files_or (some files) = files

-- `serviceBackupDir`, below BackupsDir.
abbrev pub backup_dir : Service → Text
backup_dir svc = safe_name svc.name

abbrev pub dumps_of : Dumps → Service → Files
dumps_of dumps svc = files_or (lookup (backup_dir svc) dumps)

abbrev pub with_dump : Dumps → Service → Text → Text → Dumps
with_dump dumps svc name content =
    insert (backup_dir svc) (insert name content (dumps_of dumps svc)) dumps

-- The world, the files and the name of the dump, or the error.
pub data Backup (D : Type 0) : Type 0 where
  backup_failed : World D → ServiceError → Backup D
  backup_done : World D → Dumps → Text → Backup D

abbrev pub exec_spec : Service → EnvMap × List Text → ExecSpec
exec_spec svc (env, cmd) = record { container = service_name svc.name; env = env; cmd = cmd }

abbrev pub dumped : {D : Type 0} → World D → Dumps → Service → Text → D × Option Text → Backup D
dumped w dumps svc name (docker, none) =
    backup_failed (record w { docker = docker }) ServiceError.failed_exec
dumped w dumps svc name (docker, some content) =
    backup_done (record w { docker = docker }) (with_dump dumps svc name content) name

abbrev pub backup_with :
    {D : Type 0}
    → Orchestrator D
    → World D
    → Dumps
    → Service
    → Text
    → Option (EnvMap × List Text)
    → Backup D
backup_with agent w dumps svc name none = backup_failed w ServiceError.unsupported
backup_with agent w dumps svc name (some command) =
    dumped w dumps svc name (agent.exec_out w.docker (exec_spec svc command))

abbrev pub backup_by :
    {D : Type 0} → Manager D → World D → Dumps → Service → Text → Option (Orchestrator D) → Backup D
backup_by m w dumps svc name none = backup_failed w ServiceError.no_agent
backup_by m w dumps svc name (some agent) =
    backup_with agent w dumps svc name (dump_command svc.engine (decode_creds m svc))

abbrev pub is_managed : Service → Bool
is_managed svc = text_eq svc.mode (codes "managed")

abbrev pub backup_found :
    {D : Type 0} → Manager D → World D → Dumps → Text → Option Service → Backup D
backup_found m w dumps name none = backup_failed w ServiceError.not_found
backup_found m w dumps name (some svc) =
    if is_managed svc
    then backup_by m w dumps svc name m.agent
    else backup_failed w ServiceError.not_managed

unfoldable pub backup_service : {D : Type 0} → Manager D → World D → Dumps → ℕ → Text → Backup D
unfolding dump_command decode_creds find_service lookup insert
backup_service m w dumps id stamp =
    backup_found m w dumps (stamp ++ codes ".sql") (get_service w.services id)

-- What the file of a dump is restored to.
abbrev pub restored : {D : Type 0} → World D → D × Bool → World D × Option ServiceError
restored w (docker, true) = (record w { docker = docker }, none)
restored w (docker, false) = (record w { docker = docker }, some ServiceError.failed_exec)

abbrev pub restore_from :
    {D : Type 0} → Orchestrator D → World D → ExecSpec → Option Text → World D × Option ServiceError
restore_from agent w spec none = (w, some ServiceError.missing)
restore_from agent w spec (some content) = restored w (agent.exec_in w.docker spec content)

abbrev pub restore_with :
    {D : Type 0}
    → Orchestrator D
    → World D
    → Dumps
    → Service
    → Text
    → Option (EnvMap × List Text)
    → World D × Option ServiceError
restore_with agent w dumps svc name none = (w, some ServiceError.unsupported)
restore_with agent w dumps svc name (some command) =
    restore_from agent w (exec_spec svc command) (lookup name (dumps_of dumps svc))

abbrev pub restore_by :
    {D : Type 0}
    → Manager D
    → World D
    → Dumps
    → Service
    → Text
    → Option (Orchestrator D)
    → World D × Option ServiceError
restore_by m w dumps svc name none = (w, some ServiceError.no_agent)
restore_by m w dumps svc name (some agent) =
    restore_with agent w dumps svc name (restore_command svc.engine (decode_creds m svc))

abbrev pub restore_found :
    {D : Type 0}
    → Manager D
    → World D
    → Dumps
    → Text
    → Option Service
    → World D × Option ServiceError
restore_found m w dumps name none = (w, some ServiceError.not_found)
restore_found m w dumps name (some svc) =
    if is_managed svc
    then restore_by m w dumps svc name m.agent
    else (w, some ServiceError.not_managed)

unfoldable pub restore_service :
    {D : Type 0} → Manager D → World D → Dumps → ℕ → Text → World D × Option ServiceError
unfolding safe_backup_name restore_command decode_creds find_service lookup
restore_service m w dumps id name =
    if safe_backup_name name
    then restore_found m w dumps name (get_service w.services id)
    else (w, some ServiceError.bad_name)

abbrev pub sql_files : Files → List Text
sql_files [] = []
sql_files ((name, content) ∷ files) =
    let rest = sql_files files in if has_suffix name (codes ".sql") then name ∷ rest else rest

-- The names of the dumps, newest first.
unfoldable pub list_backups : {D : Type 0} → World D → Dumps → ℕ → Option (List Text)
unfolding find_service lookup sort_by
list_backups w dumps id = elim (get_service w.services id) [
  | none ↦ none
  | some svc ↦ some (sort_by (λ a b. text_ltb b a) (sql_files (dumps_of dumps svc)))
]
