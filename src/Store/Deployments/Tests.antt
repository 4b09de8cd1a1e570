-- ===== src/Store/Deployments/Tests.antt =====
-- Runs of the table of deployments, and its theorems at them.
use orxies.Prelude.{◌≤◌, ◌≡◌, refl, List, [], ◌∷◌, none, some, codes, arith}
use orxies.Store.Deployments.{
  Deployment, DeploymentTable, create_deployment, update_rows, find_row, first_of, rows_of,
  latest_deployment, get_deployment,
}
use orxies.Store.Deployments.Latest.{
  IsSound, Change, run, changed, run-IsSound, history, latest_deployment-greatest,
}

program : Unit {0}
unfolding create_deployment update_rows find_row first_of rows_of run changed
program = tt

abbrev empty : DeploymentTable
empty = record { rows = []; seq = 0 }

abbrev build : Deployment
build = record {
  id = 0;
  project_id = 4;
  status = [];
  image_ref = [];
  container_id = [];
  host_port = 0;
  commit_sha = [];
  created_at = 0;
  finished_at = none;
}

abbrev changes : List Change
changes =
    Change.create 10 build ∷ Change.create 11 build ∷ Change.update (record build { id = 1 }) ∷ []

abbrev second : Deployment
second = record build { id = 2; status = codes "queued"; created_at = 11 }

latest_run : latest_deployment (run empty changes) 4 ≡ some second
unfolding program
latest_run = refl

run-IsSound_example :
    IsSound (run empty changes)
    × (get_deployment (run empty changes) 1 ≡ history 1 empty.seq changes (get_deployment empty 1))
run-IsSound_example = run-IsSound empty changes 1 tt

abbrev first : Deployment
first = record build { id = 1; created_at = 10 }

abbrev two : DeploymentTable
two = record { rows = second ∷ first ∷ []; seq = 2 }

latest_two : latest_deployment two 4 ≡ some second
unfolding program
latest_two = refl

first_there : get_deployment two 1 ≡ some first
unfolding program
first_there = refl

two-IsSound : IsSound two
two-IsSound = (omega arith, omega arith, (omega arith, omega arith, tt))

latest_deployment-greatest_example : 1 ≤ 2
latest_deployment-greatest_example =
    latest_deployment-greatest two 4 1 second first two-IsSound latest_two first_there refl
