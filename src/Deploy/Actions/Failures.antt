-- ===== src/Deploy/Actions/Failures.antt =====
-- internal/deploy/deploy.go: what a failed deployment does not touch.
use orxies.Prelude.{ℕ, ◌≡◌, Option, some}
use orxies.Deploy.{Orchestrator, World}
use orxies.Deploy.Containers.{DeployError, Done}
use orxies.Deploy.Containers.Endings.{Unrouted}

-- An error leaves the routes, the other deployments and what ran as they were.
abbrev IsKept : {D : Type 0} → Option (Orchestrator D) → World D → ℕ → Done D → Type 0
IsKept o w id r = (e : DeployError) → r.1 ≡ some e → Unrouted o w id r.0
