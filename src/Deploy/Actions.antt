-- ===== src/Deploy/Actions.antt =====
-- internal/deploy/deploy.go: the manager's operations Deploy, Update, Rollback and Stop.
pub mod Invariant
pub mod Failures
pub mod Removal
use orxies.Prelude.{
  ℕ, suc, Bool, true, false, ◌||◌, List, [], ◌∷◌, ◌++◌, Option, none, some, ◌==◌, if◌then◌else◌,
  Text, text_eq, text_key, nat_key, codes, is_empty,
}
use orxies.Prelude.Decimal.{print_int}
use orxies.Config.Files.{site_filename}
use orxies.Store.Projects.{
  Project, find_project, get_project, update_projects, update_project, without_project,
  delete_project_row,
}
use orxies.Store.Deployments.{
  Deployment, status_building, status_stopped, create_deployment, update_rows, find_row,
  get_deployment, first_of, latest_deployment,
}
use orxies.Store.Ports.{PortTable, release_port}
use orxies.Store.Services.{keep_links}
use orxies.Agent.{BuildSpec}
use orxies.Deploy.{Orchestrator, Manager, World, safe_name}
use orxies.Deploy.Detect.{detect_source}
use orxies.Deploy.Sites.{site_for, save_site, delete_site, static_site}
use orxies.Deploy.Containers.{
  Inputs, DeployError, Done, with_deployment, fail, succeed, saved, removed, freed, run_image,
}

-- A deployment as it is entered, `Deploy` and `Rollback` alike.
abbrev pub entered : {D : Type 0} → World D → Project → ℕ → Text → World D × Deployment
entered w p now commit =
    let d : Deployment = record {
      id = 0;
      project_id = p.id;
      status = status_building;
      image_ref = [];
      container_id = [];
      host_port = 0;
      commit_sha = commit;
      created_at = now;
      finished_at = none;
    } in
    let r = create_deployment w.deployments now d in
    (record w { deployments = r.0 }, record d { id = r.1 })

-- The directory is joined with a safe name, which has no dot and no slash.
abbrev pub checkout : {D : Type 0} → Manager D → Project → Text
checkout m p = m.repos_dir ++ codes "/" ++ safe_name p.name

abbrev pub token_of : {D : Type 0} → Manager D → Project → Text
token_of m p = elim m.secrets [
  | none ↦ []
  | some box ↦
      if is_empty p.token_enc then [] else elim (box.decrypt p.token_enc) [ none ↦ [] | some t ↦ t ]
]

-- The directory to deploy from and the commit.
unfoldable pub sync_source : {D : Type 0} → Manager D → Inputs → Project → Option (Text × Text)
sync_source m i p =
    if is_empty p.repo_url
    then some (p.source_path, [])
    else elim (i.git p.repo_url p.branch (token_of m p) (checkout m p)) [
      | none ↦ none
      | some sha ↦ some (checkout m p, sha)
    ]

unfoldable pub finish_static :
    {D : Type 0} → Manager D → Inputs → World D → Project → Deployment → Text → Done D
unfolding site_for save_site succeed fail
finish_static m i w p d src =
    saved w d i.finished (λ w'. succeed w' d i.finished)
      (save_site m.parse_host i.disk_ok w.files (static_site p src (site_for m w p.domain).0))

abbrev pub image_of : Project → Deployment → Text
image_of p d = codes "orxies/" ++ p.name ++ codes ":" ++ print_int d.id

abbrev pub built :
    {D : Type 0}
    → Manager D
    → Orchestrator D
    → Inputs
    → World D
    → Project
    → Deployment
    → D × Bool
    → Done D
built m agent i w p d (docker, false) =
    fail (record w { docker = docker }) d i.finished DeployError.build_failed
built m agent i w p d (docker, true) =
    run_image m agent i (record w { docker = docker }) p (record d { image_ref = image_of p d })
      (image_of p d)

abbrev pub build_spec : Project → Deployment → Text → BuildSpec
build_spec p d src = record {
  name = image_of p d;
  source_path = src;
  strategy = p.strategy;
  dockerfile = [];
}

abbrev pub finish_with :
    {D : Type 0}
    → Manager D
    → Inputs
    → World D
    → Project
    → Deployment
    → Text
    → Option (Orchestrator D)
    → Done D
finish_with m i w p d src none = fail w d i.finished DeployError.no_agent
finish_with m i w p d src (some agent) =
    built m agent i w p d (agent.build w.docker (build_spec p d src))

unfoldable pub finish_container :
    {D : Type 0} → Manager D → Inputs → World D → Project → Deployment → Text → Done D
unfolding run_image fail
finish_container m i w p d src = finish_with m i w p d src m.agent

-- The strategy and the port are found out where they are not set, and stored.
abbrev pub with_strategy : Inputs → Project → Text → Project
with_strategy i p src = record p {
  strategy = (detect_source (i.tree src)).strategy;
  app_port = if p.app_port == 0 then (detect_source (i.tree src)).app_port else p.app_port;
}

abbrev pub undetected : Project → Bool
undetected p = is_empty p.strategy || text_eq p.strategy (codes "auto")

abbrev pub finish :
    {D : Type 0} → Manager D → Inputs → World D → Project → Deployment → Text → Done D
finish m i w p d src =
    if text_eq p.strategy (codes "static")
    then finish_static m i w p d src
    else finish_container m i w p d src

abbrev pub detected :
    {D : Type 0} → Manager D → Inputs → World D → Project → Deployment → Text → Done D
detected m i w p d src =
    if undetected p
    then finish m i (record w { projects = update_project w.projects (with_strategy i p src) })
        (with_strategy i p src) d src
    else finish m i w p d src

-- What follows the sync, by `put`.
abbrev pub synced :
    {D : Type 0}
    → Inputs
    → World D
    → Deployment
    → (Deployment → Text → Done D)
    → Option (Text × Text)
    → Done D
synced i w d put none = fail w d i.finished DeployError.sync_failed
synced i w d put (some (src, sha)) = put (record d { commit_sha = sha }) src

abbrev pub deploy_project : {D : Type 0} → Manager D → Inputs → World D → Project → Done D
deploy_project m i w p =
    let (w', d) = entered w p i.created [] in
    synced i w' d (λ d' src. detected m i w' p d' src) (sync_source m i p)

abbrev pub deploy_found : {D : Type 0} → Manager D → Inputs → World D → Option Project → Done D
deploy_found m i w none = (w, some DeployError.not_found)
deploy_found m i w (some p) = deploy_project m i w p

unfoldable pub deploy : {D : Type 0} → Manager D → Inputs → World D → ℕ → Done D
unfolding create_deployment sync_source fail finish_static finish_container update_projects
    find_project detect_source
deploy m i w id = deploy_found m i w (get_project w.projects id)

abbrev pub update_project_site : {D : Type 0} → Manager D → Inputs → World D → Project → Done D
update_project_site m i w p =
    let (w', d) = entered w p i.created [] in
    synced i w' d (λ d' src. finish_static m i w' p d' src) (sync_source m i p)

abbrev pub update_found : {D : Type 0} → Manager D → Inputs → World D → ℕ → Option Project → Done D
update_found m i w id none = (w, some DeployError.not_found)
update_found m i w id (some p) =
    if text_eq p.strategy (codes "static") then update_project_site m i w p else deploy m i w id

unfoldable pub update : {D : Type 0} → Manager D → Inputs → World D → ℕ → Done D
unfolding deploy create_deployment sync_source fail finish_static find_project
update m i w id = update_found m i w id (get_project w.projects id)

abbrev pub rollback_to :
    {D : Type 0}
    → Manager D
    → Orchestrator D
    → Inputs
    → World D
    → Project
    → ℕ
    → Option Deployment
    → Done D
rollback_to m agent i w p id none = (w, some DeployError.not_found)
rollback_to m agent i w p id (some target) =
    let (w', d) = entered w p i.created target.commit_sha in
    let again = run_image m agent i w' p d target.image_ref in
    if target.project_id == id
    then if is_empty target.image_ref then (w, some DeployError.no_image) else again
    else (w, some DeployError.no_image)

abbrev pub rollback_with :
    {D : Type 0} → Manager D → Inputs → World D → Project → ℕ → ℕ → Option (Orchestrator D) → Done D
rollback_with m i w p id target none = (w, some DeployError.no_agent)
rollback_with m i w p id target (some agent) =
    rollback_to m agent i w p id (get_deployment w.deployments target)

abbrev pub rollback_found :
    {D : Type 0} → Manager D → Inputs → World D → ℕ → ℕ → Option Project → Done D
rollback_found m i w id target none = (w, some DeployError.not_found)
rollback_found m i w id target (some p) = rollback_with m i w p id target m.agent

unfoldable pub rollback : {D : Type 0} → Manager D → Inputs → World D → ℕ → ℕ → Done D
unfolding find_project find_row create_deployment run_image
rollback m i w id target = rollback_found m i w id target (get_project w.projects id)

abbrev pub stopped : {D : Type 0} → World D → Deployment → D × Bool → Done D
stopped w d (docker, false) = (record w { docker = docker }, some DeployError.stop_failed)
stopped w d (docker, true) =
    (with_deployment (record w { docker = docker }) (record d { status = status_stopped }), none)

abbrev pub stop_container : {D : Type 0} → Option (Orchestrator D) → D → Text → D × Bool
stop_container none docker container = (docker, true)
stop_container (some agent) docker container =
    let answer = agent.stop docker container in
    if is_empty container then (docker, true) else answer

abbrev pub stop_found : {D : Type 0} → Manager D → World D → Option Deployment → Done D
stop_found m w none = (w, some DeployError.not_found)
stop_found m w (some d) = stopped w d (stop_container m.agent w.docker d.container_id)

unfoldable pub stop : {D : Type 0} → Manager D → World D → ℕ → Done D
unfolding first_of update_rows
stop m w id = stop_found m w (latest_deployment w.deployments id)
