-- ===== src/Deploy/Containers/Endings.antt =====
-- internal/deploy/deploy.go: the ways in which runImage ends.
use orxies.Prelude.{
  ap, ◌∙◌, ◌++◌, codes, if◌then◌else◌, Bool-cases, inl, inr, lookup-insert, ℕ, suc, ◌≡◌, refl,
  false, List, Option, none, some, ◌==◌, Text, nat_key, lookup, insert, arith,
}
use orxies.Config.{Site}
use orxies.Store.Projects.{Project}
use orxies.Store.Deployments.{Deployment, status_failed, find_row}
use orxies.Store.Ports.{PortTable, port_range_lo, port_range_hi, allocate_port, release_port}
use orxies.Prelude.Decimal.{print_int}
use orxies.Agent.{BuildSpec, RunSpec}
use orxies.Deploy.Services.{env_for_project}
use orxies.Store.Ports.Lowest.{release_port-lookup, Lowest, allocate_port-Lowest}
use orxies.Deploy.{Orchestrator, Manager, World, network_name}
use orxies.Deploy.Health.{Health, wait_healthy}
use orxies.Deploy.Sites.{site_for, save_site, proxy_site}
use orxies.Deploy.Containers.{
  Inputs, DeployError, Done, ended, fail, saved, put_live, flip, checked, ran, run_spec, on_port,
  run_image,
}
use orxies.Deploy.Containers.Drains.{find_row-update_rows_ne}

-- The calls of the agent that lead from one state of the engine to another: builds, networks, and
-- runs of containers that are named for the deployment. None of them stops or removes a container.
pub data Calls {D : Type 0} (o : Option (Orchestrator D)) (id : ℕ) : D → D → Type 0 where
  no_call : (d : D) → Calls o id d d
  builds :
      (agent : Orchestrator D) (d d' : D) (s : BuildSpec)
      → o ≡ some agent
      → Calls o id (agent.build d s).0 d'
      → Calls o id d d'
  networks :
      (agent : Orchestrator D) (d d' : D) (name : Text)
      → o ≡ some agent
      → Calls o id (agent.ensure_network d name).0 d'
      → Calls o id d d'
  runs :
      (agent : Orchestrator D) (d d' : D) (s : RunSpec) (name : Text)
      → o ≡ some agent
      → s.name ≡ codes "orxies-" ++ name ++ codes "-" ++ print_int id
      → Calls o id (agent.run d s).0 d'
      → Calls o id d d'

-- Every port that was taken is its owner's still.
abbrev pub KeepsPorts : PortTable → PortTable → Type 0
KeepsPorts t t' = (q owner : ℕ) → lookup q t ≡ some owner → lookup q t' ≡ some owner

other_port :
    (t : PortTable) (port q owner id : ℕ)
    → lookup port t ≡ none
    → lookup q t ≡ some owner
    → (if port == q then some id else lookup q t) ≡ some owner
other_port t port q owner id free h = elim (Bool-cases (port == q)) [
  | inl same ↦ absurd (ground (arith, same, free, h))
  | inr other ↦ rw other h
]

insert-KeepsPorts :
    (t ports : PortTable) (port id : ℕ)
    → ports ≡ insert port id t
    → lookup port t ≡ none
    → KeepsPorts t ports
insert-KeepsPorts t ports port id own free q owner h =
    ap (lookup q) own ∙ lookup-insert port q id t ∙ other_port t port q owner id free h

release-KeepsPorts :
    (t ports : PortTable) (port id : ℕ)
    → ports ≡ insert port id t
    → lookup port t ≡ none
    → KeepsPorts t (release_port ports port)
release-KeepsPorts t ports port id own free q owner h = elim (Bool-cases (port == q)) [
  | inl same ↦ absurd (ground (arith, same, free, h))
  | inr other ↦
      release_port-lookup ports port q
      ∙ rw other (insert-KeepsPorts t ports port id own free q owner h)
]

module _ {D : Type 0} (m : Manager D) (i : Inputs) (p : Project) where
  -- An operation on `w` for the deployment `id` ends in a failure that is recorded, or with the
  -- route written for the container behind `port`.
  pub data Ending (agent : Orchestrator D) (w : World D) (id : ℕ) (r : Done D) : Type 0 where
    failed :
        (docker : D) (ports : PortTable) (d : Deployment) (e : DeployError)
        → d.id ≡ id
        → Calls (some agent) id w.docker docker
        → KeepsPorts w.ports ports
        → r ≡ fail (record w { docker = docker; ports = ports }) d i.finished e
        → Ending agent w id r
    flipped :
        (docker : D) (ports : PortTable) (d : Deployment) (files : List (Text × Site))
        → d.id ≡ id
        → ports ≡ insert d.host_port id w.ports
        → lookup d.host_port w.ports ≡ none
        → save_site m.parse_host i.disk_ok w.files (proxy_site d.host_port (site_for m w p.domain))
          ≡ some files
        → r
          ≡ put_live m i p d
              (record w { docker = docker; ports = ports; files = files; reloads = suc w.reloads })
        → Ending agent w id r

  saved-Ending :
      (agent : Orchestrator D) (w : World D) (id : ℕ) (docker : D) (ports : PortTable)
      (d : Deployment) (o : Option (List (Text × Site)))
      → d.id ≡ id
      → Calls (some agent) id w.docker docker
      → ports ≡ insert d.host_port id w.ports
      → lookup d.host_port w.ports ≡ none
      → save_site m.parse_host i.disk_ok w.files (proxy_site d.host_port (site_for m w p.domain))
        ≡ o
      → Ending agent w id
          (saved (record w { docker = docker; ports = ports }) d i.finished (put_live m i p d) o)
  saved-Ending agent w id docker ports d none same calls own free e =
      failed docker ports d DeployError.save_failed same calls
        (insert-KeepsPorts w.ports ports d.host_port id own free) refl
  saved-Ending agent w id docker ports d (some files) same calls own free e =
      flipped docker ports d files same own free e refl

  checked-Ending :
      (agent : Orchestrator D) (w : World D) (id : ℕ) (docker : D) (ports : PortTable)
      (d : Deployment) (o : Health)
      → d.id ≡ id
      → Calls (some agent) id w.docker docker
      → ports ≡ insert d.host_port id w.ports
      → lookup d.host_port w.ports ≡ none
      → Ending agent w id (checked m i (record w { docker = docker; ports = ports }) p d o)
  unfolding flip site_for
  checked-Ending agent w id docker ports d Health.healthy same calls own free =
      saved-Ending agent w id docker ports d _ same calls own free refl
  checked-Ending agent w id docker ports d Health.cancelled same calls own free =
      failed docker ports d DeployError.unhealthy same calls
        (insert-KeepsPorts w.ports ports d.host_port id own free) refl
  checked-Ending agent w id docker ports d Health.unreachable same calls own free =
      failed docker ports d DeployError.unhealthy same calls
        (insert-KeepsPorts w.ports ports d.host_port id own free) refl
  checked-Ending agent w id docker ports d Health.out_of_fuel same calls own free =
      failed docker ports d DeployError.unhealthy same calls
        (insert-KeepsPorts w.ports ports d.host_port id own free) refl

  ran-Ending :
      (agent : Orchestrator D) (w : World D) (ports : PortTable) (d : Deployment) (image : Text)
      (port : ℕ) (r : D × Option Text)
      → Calls (some agent) d.id w.docker r.0
      → ports ≡ insert port d.id w.ports
      → lookup port w.ports ≡ none
      → Ending agent w d.id (ran m i (record w { ports = ports }) p d image port r)
  ran-Ending agent w ports d image port (docker, none) calls own free =
      failed docker (release_port ports port) d DeployError.run_failed refl calls
        (release-KeepsPorts w.ports ports port d.id own free) refl
  ran-Ending agent w ports d image port (docker, some container) calls own free =
      checked-Ending agent w d.id docker ports
        (record d { container_id = container; host_port = port; image_ref = image })
        (wait_healthy i.dialled i.attempt) refl calls own free

  on_port-Ending :
      (agent : Orchestrator D) (w : World D) (d : Deployment) (image : Text)
      (r : PortTable × Option ℕ)
      → Lowest w.ports d.id port_range_lo (suc port_range_hi) r
      → Ending agent w d.id (on_port m agent i w p d image r)
  on_port-Ending agent w d image (ports, none) lowest =
      failed w.docker ports d DeployError.no_free_port refl (no_call w.docker)
        (λ q owner h. ap (lookup q) lowest.0 ∙ h) refl
  on_port-Ending agent w d image (ports, some port) lowest =
      let named = (agent.ensure_network w.docker network_name).0 in
      let spec = run_spec p d image port (env_for_project m w.services p) in
      ran-Ending agent w ports d image port (agent.run named spec)
        (networks agent w.docker _ network_name refl
          (runs agent named _ spec p.name refl refl (no_call (agent.run named spec).0)))
        lowest.0 lowest.1

  pub run_image-Ending :
      (agent : Orchestrator D) (w : World D) (d : Deployment) (image : Text)
      → Ending agent w d.id (run_image m agent i w p d image)
  unfolding run_image
  run_image-Ending agent w d image =
      on_port-Ending agent w d image (allocate_port w.ports d.id port_range_lo port_range_hi)
        (allocate_port-Lowest w.ports d.id port_range_lo port_range_hi (omega arith))

-- The routes are as they were, and so is every deployment but one. Whatever ran in the engine has
-- not been stopped or removed, and no port was taken away.
pub record Unrouted {D : Type 0} (o : Option (Orchestrator D)) (w : World D) (id : ℕ) (w' : World D)
    : Type 0 where
  pub files : w'.files ≡ w.files
  pub reloads : w'.reloads ≡ w.reloads
  pub others :
      (n : ℕ) → (id == n) ≡ false → find_row n w'.deployments.rows ≡ find_row n w.deployments.rows
  pub calls : Calls o id w.docker w'.docker
  pub ports : KeepsPorts w.ports w'.ports

-- A failure that is recorded in a world with the same routes and deployments.
pub fail-Unrouted :
    {D : Type 0} (o : Option (Orchestrator D)) (w : World D) (docker : D) (ports : PortTable)
    (d : Deployment) (now : ℕ) (e : DeployError)
    → Calls o d.id w.docker docker
    → KeepsPorts w.ports ports
    → Unrouted o w d.id (fail (record w { docker = docker; ports = ports }) d now e).0
unfolding fail
fail-Unrouted o w docker ports d now e calls kept = record {
  files = refl;
  reloads = refl;
  others = λ n ne. find_row-update_rows_ne (ended d status_failed now) w.deployments.rows n ne;
  calls = calls;
  ports = kept;
}
