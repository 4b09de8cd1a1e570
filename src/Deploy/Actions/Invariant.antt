-- ===== src/Deploy/Actions/Invariant.antt =====
-- internal/deploy/deploy.go: the ports stay with their deployments, whatever the manager is asked for.
use orxies.Prelude.{
  ℕ, ◌≡◌, refl, Bool, true, false, List, [], ◌∷◌, Option, none, some, ◌==◌, Text, text_eq, codes,
  is_empty, arith, Bool-cases, inl, inr,
}
use orxies.Store.Projects.{Project, get_project, update_project}
use orxies.Store.Deployments.{
  Deployment, status_stopped, create_deployment, get_deployment, latest_deployment,
}
use orxies.Deploy.{Orchestrator, Manager, World}
use orxies.Deploy.Sites.{save_site, static_site, site_for}
use orxies.Deploy.Containers.{Inputs, DeployError, Done, succeed}
use orxies.Deploy.Containers.Ports.{IsHeld, update_rows-Held}
use orxies.Deploy.Containers.Runs.{fail-Held, succeed-Held, saved-Held, run_image-Held}
use orxies.Deploy.Actions.{
  entered, sync_source, finish_static, image_of, built, finish_container, undetected, finish,
  with_strategy, detected, build_spec, finish_with, synced, deploy_found, deploy, update_found,
  update, rollback_to, rollback_with, rollback_found, rollback, stop_found, stopped, stop_container,
  stop,
}

entered-Held :
    {D : Type 0} (w : World D) (p : Project) (now : ℕ) (commit : Text)
    → IsHeld w
    → IsHeld (entered w p now commit).0
unfolding create_deployment
entered-Held w p now commit h = (λ live. absurd (ground arith), h)

finish_static-Held :
    {D : Type 0} (m : Manager D) (i : Inputs) (w : World D) (p : Project) (d : Deployment)
    (src : Text)
    → (d.host_port == 0) ≡ true
    → IsHeld w
    → IsHeld (finish_static m i w p d src).0
unfolding finish_static
finish_static-Held m i w p d src bare h =
    saved-Held w d i.finished (λ w'. succeed w' d i.finished)
      (λ w' own held. succeed-Held w' d i.finished own held)
      (save_site m.parse_host i.disk_ok w.files (static_site p src (site_for m w p.domain).0))
      (λ real. absurd (ground arith)) h

built-Held :
    {D : Type 0} (m : Manager D) (agent : Orchestrator D) (i : Inputs) (w : World D) (p : Project)
    (d : Deployment) (r : D × Bool)
    → (d.host_port == 0) ≡ true
    → IsHeld w
    → IsHeld (built m agent i w p d r).0
built-Held m agent i w p d (docker, false) bare h =
    fail-Held (record w { docker = docker }) d i.finished DeployError.build_failed
      (λ real. absurd (ground arith)) h
built-Held m agent i w p d (docker, true) bare h =
    run_image-Held m agent i (record w { docker = docker }) p
      (record d { image_ref = image_of p d }) (image_of p d) bare h

finish_with-Held :
    {D : Type 0} (m : Manager D) (i : Inputs) (w : World D) (p : Project) (d : Deployment)
    (src : Text) (agent : Option (Orchestrator D))
    → (d.host_port == 0) ≡ true
    → IsHeld w
    → IsHeld (finish_with m i w p d src agent).0
finish_with-Held m i w p d src none bare h =
    fail-Held w d i.finished DeployError.no_agent (λ real. absurd (ground arith)) h
finish_with-Held m i w p d src (some a) bare h =
    built-Held m a i w p d (a.build w.docker (build_spec p d src)) bare h

finish-Held :
    {D : Type 0} (m : Manager D) (i : Inputs) (w : World D) (p : Project) (d : Deployment)
    (src : Text)
    → (d.host_port == 0) ≡ true
    → IsHeld w
    → IsHeld (finish m i w p d src).0
unfolding finish_container
finish-Held m i w p d src bare h = elim (Bool-cases (text_eq p.strategy (codes "static"))) [
  | inl static ↦ rw static (finish_static-Held m i w p d src bare h)
  | inr container ↦ rw container (finish_with-Held m i w p d src m.agent bare h)
]

detected-Held :
    {D : Type 0} (m : Manager D) (i : Inputs) (w : World D) (p : Project) (d : Deployment)
    (src : Text)
    → (d.host_port == 0) ≡ true
    → IsHeld w
    → IsHeld (detected m i w p d src).0
detected-Held m i w p d src bare h = elim (Bool-cases (undetected p)) [
  | inl fresh ↦ rw fresh (
      finish-Held m i (record w { projects = update_project w.projects (with_strategy i p src) })
        (with_strategy i p src) d src bare h)
  | inr known ↦ rw known (finish-Held m i w p d src bare h)
]

synced-Held :
    {D : Type 0} (i : Inputs) (w : World D) (d : Deployment) (put : Deployment → Text → Done D)
    (o : Option (Text × Text))
    → ((d' : Deployment) (src : Text) → (d'.host_port == 0) ≡ true → IsHeld (put d' src).0)
    → (d.host_port == 0) ≡ true
    → IsHeld w
    → IsHeld (synced i w d put o).0
synced-Held i w d put none keeps bare h =
    fail-Held w d i.finished DeployError.sync_failed (λ real. absurd (ground arith)) h
synced-Held i w d put (some (src, sha)) keeps bare h =
    keeps (record d { commit_sha = sha }) src bare

deploy_found-Held :
    {D : Type 0} (m : Manager D) (i : Inputs) (w : World D) (o : Option Project)
    → IsHeld w
    → IsHeld (deploy_found m i w o).0
deploy_found-Held m i w none h = h
deploy_found-Held m i w (some p) h =
    let start = entered w p i.created [] in
    let held = entered-Held w p i.created [] h in
    synced-Held i start.0 start.1 (λ d src. detected m i start.0 p d src) (sync_source m i p)
      (λ d src bare. detected-Held m i start.0 p d src bare held) refl held

deploy-Held :
    {D : Type 0} (m : Manager D) (i : Inputs) (w : World D) (id : ℕ)
    → IsHeld w
    → IsHeld (deploy m i w id).0
unfolding deploy
deploy-Held m i w id h = deploy_found-Held m i w (get_project w.projects id) h

update_found-Held :
    {D : Type 0} (m : Manager D) (i : Inputs) (w : World D) (id : ℕ) (o : Option Project)
    → IsHeld w
    → IsHeld (update_found m i w id o).0
update_found-Held m i w id none h = h
update_found-Held m i w id (some p) h = elim (Bool-cases (text_eq p.strategy (codes "static"))) [
  | inr other ↦ rw other (deploy-Held m i w id h)
  | inl static ↦
      let start = entered w p i.created [] in
      let held = entered-Held w p i.created [] h in
      rw static (
        synced-Held i start.0 start.1 (λ d src. finish_static m i start.0 p d src)
          (sync_source m i p) (λ d src bare. finish_static-Held m i start.0 p d src bare held) refl
          held)
]

update-Held :
    {D : Type 0} (m : Manager D) (i : Inputs) (w : World D) (id : ℕ)
    → IsHeld w
    → IsHeld (update m i w id).0
unfolding update
update-Held m i w id h = update_found-Held m i w id (get_project w.projects id) h

rollback_to-Held :
    {D : Type 0} (m : Manager D) (agent : Orchestrator D) (i : Inputs) (w : World D) (p : Project)
    (id : ℕ) (o : Option Deployment)
    → IsHeld w
    → IsHeld (rollback_to m agent i w p id o).0
rollback_to-Held m agent i w p id none h = h
rollback_to-Held m agent i w p id (some target) h =
    let start = entered w p i.created target.commit_sha in
    let held = entered-Held w p i.created target.commit_sha h in
    elim (Bool-cases (target.project_id == id)) [
      | inr foreign ↦ rw foreign h
      | inl own ↦ elim (Bool-cases (is_empty target.image_ref)) [
        | inl bare ↦ rw (own, bare) h
        | inr image ↦
            rw (own, image) (run_image-Held m agent i start.0 p start.1 target.image_ref refl held)
      ]
    ]

rollback_with-Held :
    {D : Type 0} (m : Manager D) (i : Inputs) (w : World D) (p : Project) (id target : ℕ)
    (agent : Option (Orchestrator D))
    → IsHeld w
    → IsHeld (rollback_with m i w p id target agent).0
rollback_with-Held m i w p id target none h = h
rollback_with-Held m i w p id target (some a) h =
    rollback_to-Held m a i w p id (get_deployment w.deployments target) h

rollback_found-Held :
    {D : Type 0} (m : Manager D) (i : Inputs) (w : World D) (id target : ℕ) (o : Option Project)
    → IsHeld w
    → IsHeld (rollback_found m i w id target o).0
rollback_found-Held m i w id target none h = h
rollback_found-Held m i w id target (some p) h = rollback_with-Held m i w p id target m.agent h

rollback-Held :
    {D : Type 0} (m : Manager D) (i : Inputs) (w : World D) (id target : ℕ)
    → IsHeld w
    → IsHeld (rollback m i w id target).0
unfolding rollback
rollback-Held m i w id target h = rollback_found-Held m i w id target (get_project w.projects id) h

stopped-Held :
    {D : Type 0} (w : World D) (d : Deployment) (r : D × Bool) → IsHeld w → IsHeld (stopped w d r).0
stopped-Held w d (docker, false) h = h
stopped-Held w d (docker, true) h =
    update_rows-Held w.ports (record d { status = status_stopped }) w.deployments.rows
      (λ live. absurd (ground arith)) h

stop_found-Held :
    {D : Type 0} (m : Manager D) (w : World D) (o : Option Deployment)
    → IsHeld w
    → IsHeld (stop_found m w o).0
stop_found-Held m w none h = h
stop_found-Held m w (some d) h = stopped-Held w d (stop_container m.agent w.docker d.container_id) h

stop-Held : {D : Type 0} (m : Manager D) (w : World D) (id : ℕ) → IsHeld w → IsHeld (stop m w id).0
unfolding stop
stop-Held m w id h = stop_found-Held m w (latest_deployment w.deployments id) h

-- What the manager is asked for.
pub data Action : Type 0 where
  deploy_it update_it : Inputs → ℕ → Action
  rollback_it : Inputs → ℕ → ℕ → Action
  stop_it : ℕ → Action

unfoldable pub acted : {D : Type 0} → Manager D → World D → Action → World D
unfolding deploy update rollback stop
acted m w (Action.deploy_it i id) = (deploy m i w id).0
acted m w (Action.update_it i id) = (update m i w id).0
acted m w (Action.rollback_it i id target) = (rollback m i w id target).0
acted m w (Action.stop_it id) = (stop m w id).0

unfoldable pub act_all : {D : Type 0} → Manager D → World D → List Action → World D
unfolding acted
act_all m w [] = w
act_all m w (a ∷ rest) = act_all m (acted m w a) rest

acted-Held :
    {D : Type 0} (m : Manager D) (w : World D) (a : Action) → IsHeld w → IsHeld (acted m w a)
unfolding acted
acted-Held m w (Action.deploy_it i id) h = deploy-Held m i w id h
acted-Held m w (Action.update_it i id) h = update-Held m i w id h
acted-Held m w (Action.rollback_it i id target) h = rollback-Held m i w id target h
acted-Held m w (Action.stop_it id) h = stop-Held m w id h

-- Whatever is deployed, updated, rolled back and stopped, in any order and with any answers of git,
-- the agent, the dials and the disk, every deployment that has a port and is not stopped has that
-- port in the table under its own number: no two of them share one, and none is handed out again.
pub act_all-Held :
    {D : Type 0} (m : Manager D) (w : World D) (actions : List Action)
    → IsHeld w
    → IsHeld (act_all m w actions)
unfolding act_all
act_all-Held m w [] h = h
act_all-Held m w (a ∷ rest) h = act_all-Held m (acted m w a) rest (acted-Held m w a h)
