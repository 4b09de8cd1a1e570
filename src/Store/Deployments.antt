-- ===== src/Store/Deployments.antt =====
-- internal/store/deployments.go: the table of deployments.
-- The rows stand newest first. AUTOINCREMENT gives a row the number after the greatest one ever
-- given, `seq`, so this is the order of `ORDER BY id DESC`. Times are those of the clock, 0 for the
-- zero time, and are kept as they are.
pub mod Latest
mod Tests
use orxies.Prelude.{
  ℕ, suc, ◌+◌, Bool, true, false, List, [], ◌∷◌, Option, none, some, ◌==◌, if◌then◌else◌, Text,
  codes, is_empty,
}

abbrev pub status_queued : Text
status_queued = codes "queued"

abbrev pub status_building : Text
status_building = codes "building"

abbrev pub status_running : Text
status_running = codes "running"

abbrev pub status_failed : Text
status_failed = codes "failed"

abbrev pub status_stopped : Text
status_stopped = codes "stopped"

pub record Deployment : Type 0 where
  pub id : ℕ
  pub project_id : ℕ
  pub status : Text
  pub image_ref : Text
  pub container_id : Text
  pub host_port : ℕ
  pub commit_sha : Text
  pub created_at : ℕ
  pub finished_at : Option ℕ

pub record DeploymentTable : Type 0 where
  pub rows : List Deployment
  pub seq : ℕ

-- The row that is inserted: `finished_at` is not among its columns.
abbrev pub new_row : ℕ → ℕ → Deployment → Deployment
new_row id now d = record d {
  id = id;
  status = if is_empty d.status then status_queued else d.status;
  created_at = if d.created_at == 0 then now else d.created_at;
  finished_at = none;
}

unfoldable pub create_deployment : DeploymentTable → ℕ → Deployment → DeploymentTable × ℕ
create_deployment t now d =
    (record { rows = new_row (suc t.seq) now d ∷ t.rows; seq = suc t.seq }, suc t.seq)

-- The columns that `UpdateDeployment` sets.
abbrev pub with_columns : Deployment → Deployment → Deployment
with_columns d row = record row {
  status = d.status;
  image_ref = d.image_ref;
  container_id = d.container_id;
  host_port = d.host_port;
  commit_sha = d.commit_sha;
  finished_at = d.finished_at;
}

unfoldable pub update_rows : Deployment → List Deployment → List Deployment
update_rows d [] = []
update_rows d (row ∷ rows) =
    let rest = update_rows d rows in
    if row.id == d.id then with_columns d row ∷ rest else row ∷ rest

abbrev pub update_deployment : DeploymentTable → Deployment → DeploymentTable
update_deployment t d = record t { rows = update_rows d t.rows }

unfoldable pub find_row : ℕ → List Deployment → Option Deployment
find_row id [] = none
find_row id (row ∷ rows) = if row.id == id then some row else find_row id rows

abbrev pub get_deployment : DeploymentTable → ℕ → Option Deployment
get_deployment t id = find_row id t.rows

unfoldable pub first_of : ℕ → List Deployment → Option Deployment
first_of project_id [] = none
first_of project_id (row ∷ rows) =
    if row.project_id == project_id then some row else first_of project_id rows

abbrev pub latest_deployment : DeploymentTable → ℕ → Option Deployment
latest_deployment t project_id = first_of project_id t.rows

unfoldable pub rows_of : ℕ → List Deployment → List Deployment
rows_of project_id [] = []
rows_of project_id (row ∷ rows) =
    let rest = rows_of project_id rows in if row.project_id == project_id then row ∷ rest else rest

abbrev pub list_deployments : DeploymentTable → ℕ → List Deployment
list_deployments t project_id = rows_of project_id t.rows
