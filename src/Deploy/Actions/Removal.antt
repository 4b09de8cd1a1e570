-- ===== src/Deploy/Actions/Removal.antt =====
-- internal/deploy/deploy.go: the manager's operation Remove, with the cascades of the tables.
use orxies.Prelude.{
  ℕ, suc, List, [], ◌∷◌, Option, none, some, ◌==◌, if◌then◌else◌, is_empty, true, false, Text,
}
use orxies.Config.Files.{site_filename}
use orxies.Store.Projects.{Project, find_project, get_project, without_project, delete_project_row}
use orxies.Store.Deployments.{Deployment, find_row, first_of, latest_deployment}
use orxies.Store.Ports.{PortTable, release_port}
use orxies.Store.Services.{keep_links}
use orxies.Deploy.{Manager, World}
use orxies.Deploy.Sites.{delete_site}
use orxies.Deploy.Containers.{DeployError, Done, removed, freed}

-- The rows of a project that is gone, by the cascade of the tables.
unfoldable pub without_rows : ℕ → List Deployment → List Deployment
without_rows project [] = []
without_rows project (d ∷ rows) =
    let rest = without_rows project rows in if d.project_id == project then rest else d ∷ rest

-- A port keeps its owner while the row of that is there.
unfoldable pub disowned : List Deployment → PortTable → PortTable
unfolding find_row
disowned rows [] = []
disowned rows ((port, owner) ∷ t) = elim (find_row owner rows) [
  | none ↦ (port, 0) ∷ disowned rows t
  | some d ↦ (port, owner) ∷ disowned rows t
]

unfoldable pub delete_project : {D : Type 0} → World D → ℕ → World D
unfolding without_project without_rows disowned keep_links
delete_project w id =
    let rows = without_rows id w.deployments.rows in
    record w {
      projects = delete_project_row w.projects id;
      deployments = record (w.deployments) { rows = rows };
      ports = disowned rows w.ports;
      services = record (w.services) {
        links = keep_links (λ a b. if a == id then false else true) w.services.links;
      };
    }

abbrev pub torn_down : {D : Type 0} → Manager D → World D → Option Deployment → World D
torn_down m w none = w
torn_down m w (some d) = record w {
  docker = if is_empty d.container_id then w.docker else removed m.agent w.docker d.container_id;
  ports = freed w.ports d.host_port;
}

abbrev pub without_site : {D : Type 0} → World D → Text → World D
without_site w domain =
    if is_empty domain
    then w
    else record w { files = delete_site w.files (site_filename domain); reloads = suc w.reloads }

abbrev pub remove_found : {D : Type 0} → Manager D → World D → ℕ → Option Project → Done D
remove_found m w id none = (w, some DeployError.not_found)
remove_found m w id (some p) =
    let down = torn_down m w (latest_deployment w.deployments id) in
    (delete_project (without_site down p.domain) id, none)

unfoldable pub remove : {D : Type 0} → Manager D → World D → ℕ → Done D
unfolding find_project first_of release_port delete_site delete_project
remove m w id = remove_found m w id (get_project w.projects id)
