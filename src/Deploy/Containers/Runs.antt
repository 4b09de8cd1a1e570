-- ===== src/Deploy/Containers/Runs.antt =====
-- internal/deploy/deploy.go: no run of an image takes a port that is in use.
use orxies.Prelude.{
  ℕ, suc, ◌≡◌, sym, true, false, List, [], ◌∷◌, Option, none, some, ◌==◌, Text, text_key, nat_key,
  lookup, insert, lookup-insert, arith,
}
use mathlib.Core.Path.{subst}
use orxies.Config.{Site}
use orxies.Store.Projects.{Project}
use orxies.Store.Deployments.{Deployment, status_running, status_failed, rows_of}
use orxies.Store.Ports.{PortTable, port_range_lo, port_range_hi, allocate_port, release_port}
use orxies.Store.Ports.Lowest.{Lowest, allocate_port-Lowest, release_port-lookup}
use orxies.Deploy.{Orchestrator, Manager, World}
use orxies.Deploy.Health.{Health, wait_healthy}
use orxies.Deploy.Sites.{site_for, save_site, proxy_site}
use orxies.Deploy.Containers.{
  Inputs, DeployError, Done, ended, fail, succeed, saved, drain_old, put_live, flip, checked, ran,
  on_port, run_image,
}
use orxies.Deploy.Containers.Ports.{
  Held, IsHeld, update_rows-Held, insert-Held, drain-Held, rows_of-AllOwned,
}
use orxies.Deploy.Containers.Drains.{drain-lookup}

-- The port of a deployment, if it has one, is its own.
abbrev HasPort : PortTable → Deployment → Type 0
HasPort t d = (d.host_port == 0) ≡ false → lookup d.host_port t ≡ some d.id

pub fail-Held :
    {D : Type 0} (w : World D) (d : Deployment) (now : ℕ) (e : DeployError)
    → HasPort w.ports d
    → IsHeld w
    → IsHeld (fail w d now e).0
unfolding fail
fail-Held w d now e own h =
    update_rows-Held w.ports (ended d status_failed now) w.deployments.rows
      (λ live. own (ground arith)) h

pub succeed-Held :
    {D : Type 0} (w : World D) (d : Deployment) (now : ℕ)
    → HasPort w.ports d
    → IsHeld w
    → IsHeld (succeed w d now).0
unfolding succeed
succeed-Held w d now own h =
    update_rows-Held w.ports (ended d status_running now) w.deployments.rows
      (λ live. own (ground arith)) h

put_live-Held :
    {D : Type 0} (m : Manager D) (i : Inputs) (p : Project) (d : Deployment) (w : World D)
    → HasPort w.ports d
    → IsHeld w
    → IsHeld (put_live m i p d w).0
unfolding drain_old
put_live-Held m i p d w own h =
    let ds = rows_of p.id w.deployments.rows in
    let owned = rows_of-AllOwned w.ports p.id w.deployments.rows h in
    succeed-Held (drain_old m w p.id d.id) d i.finished
      (λ real. drain-lookup m w d.id d.host_port ds owned (own real))
      (drain-Held m w d.id ds owned h)

pub saved-Held :
    {D : Type 0} (w : World D) (d : Deployment) (now : ℕ) (put : World D → Done D)
    → ((w' : World D) → HasPort w'.ports d → IsHeld w' → IsHeld (put w').0)
    → (o : Option (List (Text × Site))) → HasPort w.ports d
    → IsHeld w
    → IsHeld (saved w d now put o).0
saved-Held w d now put keeps none own h = fail-Held w d now DeployError.save_failed own h
saved-Held w d now put keeps (some files) own h =
    keeps (record w { files = files; reloads = suc w.reloads }) own h

checked-Held :
    {D : Type 0} (m : Manager D) (i : Inputs) (w : World D) (p : Project) (d : Deployment)
    (o : Health)
    → HasPort w.ports d
    → IsHeld w
    → IsHeld (checked m i w p d o).0
unfolding flip
checked-Held m i w p d Health.healthy own h =
    saved-Held w d i.finished (put_live m i p d) (put_live-Held m i p d)
      (save_site m.parse_host i.disk_ok w.files (proxy_site d.host_port (site_for m w p.domain)))
      own h
checked-Held m i w p d Health.cancelled own h = fail-Held w d i.finished DeployError.unhealthy own h
checked-Held m i w p d Health.unreachable own h =
    fail-Held w d i.finished DeployError.unhealthy own h
checked-Held m i w p d Health.out_of_fuel own h =
    fail-Held w d i.finished DeployError.unhealthy own h

-- A port that was free and is entered and given back leaves the rows as they were.
given_back-Held :
    (t : PortTable) (port owner : ℕ) (rows : List Deployment)
    → lookup port t ≡ none
    → Held t rows
    → Held (release_port (insert port owner t) port) rows
given_back-Held t port owner [] free h = tt
given_back-Held t port owner (d ∷ ds) free h = (
  λ live. ground (
    arith,
    h.0 live,
    free,
    release_port-lookup (insert port owner t) port d.host_port,
    lookup-insert port d.host_port owner t,
  ),
  given_back-Held t port owner ds free h.1,
)

ran-Held :
    {D : Type 0} (m : Manager D) (i : Inputs) (w : World D) (p : Project) (d : Deployment)
    (image : Text) (port : ℕ) (t : PortTable) (r : D × Option Text)
    → w.ports ≡ insert port d.id t
    → lookup port t ≡ none
    → (d.host_port == 0) ≡ true
    → Held t w.deployments.rows
    → IsHeld (ran m i w p d image port r).0
ran-Held m i w p d image port t (docker, none) e free bare h =
    fail-Held (record w { docker = docker; ports = release_port w.ports port }) d i.finished
      DeployError.run_failed (λ real. absurd (ground arith))
      (subst (λ x. Held (release_port x port) w.deployments.rows) (sym e)
        (given_back-Held t port d.id w.deployments.rows free h))
ran-Held m i w p d image port t (docker, some id) e free bare h =
    checked-Held m i (record w { docker = docker }) p
      (record d { container_id = id; host_port = port; image_ref = image })
      (wait_healthy i.dialled i.attempt)
      (λ real. rw e (ground (arith, lookup-insert port port d.id t)))
      (subst (λ x. Held x w.deployments.rows) (sym e)
        (insert-Held t port d.id w.deployments.rows free h))

on_port-Held :
    {D : Type 0} (m : Manager D) (agent : Orchestrator D) (i : Inputs) (w : World D) (p : Project)
    (d : Deployment) (image : Text) (r : PortTable × Option ℕ)
    → Lowest w.ports d.id port_range_lo (suc port_range_hi) r
    → (d.host_port == 0) ≡ true
    → IsHeld w
    → IsHeld (on_port m agent i w p d image r).0
on_port-Held m agent i w p d image (ports, none) lowest bare h =
    fail-Held (record w { ports = ports }) d i.finished DeployError.no_free_port
      (λ real. absurd (ground arith)) (subst (λ x. Held x w.deployments.rows) (sym lowest.0) h)
on_port-Held m agent i w p d image (ports, some port) lowest bare h =
    ran-Held m i (record w { ports = ports }) p d image port w.ports _ lowest.0 lowest.1 bare h

-- No run of an image takes the port of a deployment that is not stopped, whatever the outside
-- answers.
pub run_image-Held :
    {D : Type 0} (m : Manager D) (agent : Orchestrator D) (i : Inputs) (w : World D) (p : Project)
    (d : Deployment) (image : Text)
    → (d.host_port == 0) ≡ true
    → IsHeld w
    → IsHeld (run_image m agent i w p d image).0
unfolding run_image
run_image-Held m agent i w p d image bare h =
    on_port-Held m agent i w p d image (allocate_port w.ports d.id port_range_lo port_range_hi)
      (allocate_port-Lowest w.ports d.id port_range_lo port_range_hi (omega arith)) bare h
