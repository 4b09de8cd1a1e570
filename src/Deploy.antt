-- ===== src/Deploy.antt =====
-- internal/deploy: what its files share. The agent is an interface, `Orchestrator`, whose calls
-- change the state `D` of the container engine; a call answers `false` or `none` for an error.
pub mod Detect
pub mod Health
pub mod Services
pub mod Provisions
pub mod Backups
pub mod Sites
pub mod Containers
pub mod Actions
mod Tests
use orxies.Prelude.{
  ℕ, Bool, true, false, ◌&&◌, ◌||◌, List, [], ◌∷◌, Option, leb, ◌==◌, if◌then◌else◌, Text, codes,
  is_empty,
}
use orxies.Agent.{BuildSpec, RunSpec, ExecSpec}
use orxies.Config.{Site}
use orxies.Store.Projects.{ProjectTable}
use orxies.Store.Deployments.{DeploymentTable}
use orxies.Store.Services.{ServiceTable}
use orxies.Store.Ports.{PortTable}

-- `exec_out` answers what the command prints, `exec_in` is given what the command reads.
pub record Orchestrator (D : Type 0) : Type 0 where
  pub build : D → BuildSpec → D × Bool
  pub run : D → RunSpec → D × Option Text
  pub stop : D → Text → D × Bool
  pub remove : D → Text → D × Bool
  pub ensure_network : D → Text → D × Bool
  pub exec_out : D → ExecSpec → D × Option Text
  pub exec_in : D → ExecSpec → Text → D × Bool

pub record Creds : Type 0 where
  pub user : Text
  pub pass : Text
  pub db : Text
  pub host : Text
  pub port : ℕ
  pub url : Text

-- internal/secretbox, under the key of the installation.
pub record Box : Type 0 where
  pub encrypt : Text → Option Text
  pub decrypt : Text → Option Text

-- What `encoding/json` makes of credentials and of variables. A text that is no JSON leaves the
-- credentials as they are, so `unmarshal_creds` has no error.
pub record Json : Type 0 where
  pub marshal_creds : Creds → Text
  pub unmarshal_creds : Text → Creds
  pub unmarshal_env : Text → Option (List (Text × Text))

-- `agent` and `secrets` are `none` for nil. `parse_host` is that of Config.
pub record Manager (D : Type 0) : Type 0 where
  pub agent : Option (Orchestrator D)
  pub repos_dir : Text
  pub secrets : Option Box
  pub json : Json
  pub parse_host : Text → Option Text

-- What the manager acts on: the tables of the store, the files of the sites, each as the site that
-- it decodes to, the container engine, and the number of reloads of the router. A port whose
-- deployment is gone belongs to 0, for NULL.
pub record World (D : Type 0) : Type 0 where
  pub projects : ProjectTable
  pub deployments : DeploymentTable
  pub ports : PortTable
  pub services : ServiceTable
  pub files : List (Text × Site)
  pub docker : D
  pub reloads : ℕ

abbrev pub network_name : Text
network_name = codes "orxies-net"

abbrev pub default_app_port : ℕ
default_app_port = 3000

abbrev pub is_safe : ℕ → Bool
is_safe c =
    (leb 97 c && leb c 122)
    || (leb 65 c && leb c 90)
    || (leb 48 c && leb c 57)
    || c == 45
    || c == 95

abbrev pub safe_runes : Text → Text
safe_runes [] = []
safe_runes (c ∷ s) = (if is_safe c then c else 95) ∷ safe_runes s

abbrev pub safe_name : Text → Text
safe_name name = if is_empty (safe_runes name) then codes "_" else safe_runes name
