-- ===== src/Deploy/Containers.antt =====
-- internal/deploy/deploy.go: how a built image goes live, runImage and drainOld.
-- `Inputs` are what the outside answers during an operation: git, the source tree, the dials, the disk
-- and the clock. `git` takes the address, the branch, the token and the directory to the commit, and
-- is `none` for an error. The log is not modelled.
pub mod Ports
pub mod Drains
pub mod Runs
pub mod Endings
pub mod Live
use orxies.Prelude.{
  ℕ, suc, Bool, false, ◌||◌, List, [], ◌∷◌, ◌++◌, Option, none, some, ◌==◌, if◌then◌else◌, Text,
  text_eq, text_key, nat_key, codes, is_empty, insert,
}
use orxies.Prelude.Decimal.{print_int}
use orxies.Config.{Site}
use orxies.Store.Projects.{Project}
use orxies.Store.Deployments.{
  Deployment, status_running, status_failed, status_stopped, update_rows, update_deployment,
  rows_of, list_deployments,
}
use orxies.Store.Ports.{PortTable, port_range_lo, port_range_hi, allocate_port, release_port}
use orxies.Agent.{RunSpec}
use orxies.Deploy.{Orchestrator, Manager, World, network_name, default_app_port}
use orxies.Deploy.Detect.{SourceTree}
use orxies.Deploy.Health.{Attempt, Health, wait_healthy}
use orxies.Deploy.Services.{EnvMap, env_for_project}
use orxies.Deploy.Sites.{site_for, save_site, proxy_site}

pub record Inputs : Type 0 where
  pub git : Text → Text → Text → Text → Option Text
  pub tree : Text → SourceTree
  pub attempt : ℕ → Attempt
  pub disk_ok : Bool
  pub created : ℕ
  pub dialled : ℕ
  pub finished : ℕ

pub data DeployError : Type 0 where
  not_found no_agent no_image sync_failed build_failed no_free_port : DeployError
  run_failed unhealthy save_failed stop_failed : DeployError

-- The world after an operation, and its error.
abbrev pub Done : Type 0 → Type 0
Done D = World D × Option DeployError

abbrev pub with_deployment : {D : Type 0} → World D → Deployment → World D
with_deployment w d = record w { deployments = update_deployment w.deployments d }

abbrev pub ended : Deployment → Text → ℕ → Deployment
ended d status now = record d { status = status; finished_at = some now }

unfoldable pub fail : {D : Type 0} → World D → Deployment → ℕ → DeployError → Done D
unfolding update_rows
fail w d now e = (with_deployment w (ended d status_failed now), some e)

unfoldable pub succeed : {D : Type 0} → World D → Deployment → ℕ → Done D
unfolding update_rows
succeed w d now = (with_deployment w (ended d status_running now), none)

-- The site is written and the router reloaded, which `put` follows.
abbrev pub saved :
    {D : Type 0}
    → World D
    → Deployment
    → ℕ
    → (World D → Done D)
    → Option (List (Text × Site))
    → Done D
saved w d now put none = fail w d now DeployError.save_failed
saved w d now put (some files) = put (record w { files = files; reloads = suc w.reloads })

abbrev pub skips : ℕ → Deployment → Bool
skips keep d = d.id == keep || is_empty d.container_id || text_eq d.status status_stopped

abbrev pub removed : {D : Type 0} → Option (Orchestrator D) → D → Text → D
removed none docker container = docker
removed (some agent) docker container = (agent.remove docker container).0

abbrev pub freed : PortTable → ℕ → PortTable
freed t port = if port == 0 then t else release_port t port

unfoldable pub retire : {D : Type 0} → Manager D → World D → Deployment → World D
unfolding update_rows release_port
retire m w d =
    with_deployment
      (record w {
        docker = removed m.agent w.docker d.container_id;
        ports = freed w.ports d.host_port;
      })
      (record d { status = status_stopped })

-- The loop of `drainOld`.
unfoldable pub drain : {D : Type 0} → Manager D → World D → ℕ → List Deployment → World D
unfolding retire
drain m w keep [] = w
drain m w keep (d ∷ ds) = drain m (if skips keep d then w else retire m w d) keep ds

unfoldable pub drain_old : {D : Type 0} → Manager D → World D → ℕ → ℕ → World D
unfolding drain rows_of
drain_old m w project keep = drain m w keep (list_deployments w.deployments project)

abbrev pub put_live : {D : Type 0} → Manager D → Inputs → Project → Deployment → World D → Done D
put_live m i p d w = succeed (drain_old m w p.id d.id) d i.finished

-- The route is flipped to a container that answers.
unfoldable pub flip : {D : Type 0} → Manager D → Inputs → World D → Project → Deployment → Done D
unfolding site_for save_site succeed fail drain_old
flip m i w p d =
    saved w d i.finished (put_live m i p d)
      (save_site m.parse_host i.disk_ok w.files (proxy_site d.host_port (site_for m w p.domain)))

abbrev pub checked :
    {D : Type 0} → Manager D → Inputs → World D → Project → Deployment → Health → Done D
checked m i w p d Health.healthy = flip m i w p d
checked m i w p d _ = fail w d i.finished DeployError.unhealthy

abbrev pub port_of : Project → ℕ
port_of p = if p.app_port == 0 then default_app_port else p.app_port

abbrev pub run_spec : Project → Deployment → Text → ℕ → EnvMap → RunSpec
run_spec p d image port env = record {
  name = codes "orxies-" ++ p.name ++ codes "-" ++ print_int d.id;
  image = image;
  host_port = port;
  app_port = port_of p;
  env = insert (codes "PORT") (print_int (port_of p)) env;
  memory_mb = 512;
  network = network_name;
  volumes = [];
  unhardened = false;
}

-- What the answer of the agent makes of the run on a port.
abbrev pub ran :
    {D : Type 0}
    → Manager D
    → Inputs
    → World D
    → Project
    → Deployment
    → Text
    → ℕ
    → D × Option Text
    → Done D
ran m i w p d image port (docker, none) =
    fail (record w { docker = docker; ports = release_port w.ports port }) d i.finished
      DeployError.run_failed
ran m i w p d image port (docker, some id) =
    checked m i (record w { docker = docker }) p
      (record d { container_id = id; host_port = port; image_ref = image })
      (wait_healthy i.dialled i.attempt)

abbrev pub on_port :
    {D : Type 0}
    → Manager D
    → Orchestrator D
    → Inputs
    → World D
    → Project
    → Deployment
    → Text
    → PortTable × Option ℕ
    → Done D
on_port m agent i w p d image (ports, none) =
    fail (record w { ports = ports }) d i.finished DeployError.no_free_port
on_port m agent i w p d image (ports, some port) =
    let named = (agent.ensure_network w.docker network_name).0 in
    let env = env_for_project m w.services p in
    ran m i (record w { ports = ports }) p d image port
      (agent.run named (run_spec p d image port env))

unfoldable pub run_image :
    {D : Type 0}
    → Manager D
    → Orchestrator D
    → Inputs
    → World D
    → Project
    → Deployment
    → Text
    → Done D
unfolding allocate_port fail flip release_port wait_healthy
run_image m agent i w p d image =
    on_port m agent i w p d image (allocate_port w.ports d.id port_range_lo port_range_hi)
