-- ===== src/Deploy/Tests.antt =====
-- A project that is deployed again, and the theorems at it.
use orxies.Prelude.{
  ◌≡◌, ◌≢◌, refl, true, false, ◌==◌, [], ◌∷◌, List, none, some, Text, codes, nat_key, text_key,
  lookup, insert, delete, if◌then◌else◌, text_eq, arith,
}
use orxies.Prelude.Decimal.{print_digits, print_int}
use orxies.Config.{
  valid_label, valid_labels, valid_trimmed, valid_hostname, valid_upstream, check_aliases,
  check_upstreams, check_backend, validate,
}
use orxies.Config.Files.{sanitize_filename, site_filename, is_filename, save_name}
use orxies.Store.Projects.{Project, find_project, update_projects}
use orxies.Store.Deployments.{
  Deployment, status_running, status_building, create_deployment, update_rows, find_row, first_of,
  rows_of,
}
use orxies.Store.Ports.{allocate_from, allocate_port, release_port}
use orxies.Store.Services.{is_linked, linked_rows}
use orxies.Deploy.{Orchestrator, Manager, World}
use orxies.Deploy.Detect.{js_framework, detect_source}
use orxies.Deploy.Health.{Health, poll, wait_healthy, wait_healthy-ends}
use orxies.Deploy.Services.{
  no_creds, insert_all, service_env, decrypted, decode_creds, custom_env, inject, env_for_project,
}
use orxies.Deploy.Sites.{load_site, site_for, save_site}
use orxies.Deploy.Containers.{Inputs, fail, succeed, retire, drain, drain_old, flip, run_image}
use orxies.Deploy.Containers.Ports.{IsHeld}
use orxies.Deploy.Containers.Live.{IsLive, run_image-IsLive}
use orxies.Deploy.Actions.{
  sync_source, finish_static, finish_container, deploy, update, rollback, stop,
}
use orxies.Deploy.Actions.Invariant.{Action, acted, act_all, act_all-Held}

program : Unit {0}
unfolding lookup insert delete print_digits print_int valid_label valid_labels valid_trimmed
    valid_hostname valid_upstream check_aliases check_upstreams check_backend validate
    sanitize_filename site_filename is_filename save_name find_project update_projects
    create_deployment update_rows find_row first_of rows_of allocate_from allocate_port release_port
    is_linked linked_rows js_framework detect_source poll wait_healthy insert_all service_env
    decrypted decode_creds custom_env inject env_for_project load_site site_for save_site fail
    succeed retire drain drain_old flip run_image sync_source finish_static finish_container deploy
    update rollback stop acted act_all
program = tt

-- The engine is the list of its containers.
abbrev without : Text → List Text → List Text
without c [] = []
without c (x ∷ xs) = if text_eq c x then xs else x ∷ without c xs

abbrev pub agent : Orchestrator (List Text)
agent = record {
  build = λ d s. (d, true);
  run = λ d s. (s.name ∷ d, some s.name);
  stop = λ d c. (d, true);
  remove = λ d c. (without c d, true);
  ensure_network = λ d n. (d, true);
  exec_out = λ d s. (d, none);
  exec_in = λ d s t. (d, true);
}

abbrev pub manager : Manager (List Text)
manager = record {
  agent = some agent;
  repos_dir = codes "/repos";
  secrets = none;
  json = record {
    marshal_creds = λ c. [];
    unmarshal_creds = λ t. no_creds;
    unmarshal_env = λ t. none;
  };
  parse_host = λ u. some u;
}

abbrev inputs : Inputs
inputs = record {
  git = λ url branch token dir. some (codes "abc");
  tree = λ dir. record {
    has = λ f. text_eq f (codes "go.mod");
    has_dir = λ f. false;
    root_files = [];
    package_json = none;
  };
  attempt = λ i. record { cancelled = false; connected = i == 1; took = 20 };
  disk_ok = true;
  created = 100;
  dialled = 1000;
  finished = 130;
}

abbrev app : Project
app = record {
  id = 1;
  name = codes "app";
  source_path = codes "/src/app";
  strategy = [];
  build_cmd = [];
  run_cmd = [];
  app_port = 0;
  domain = codes "app.io";
  created_at = 1;
  repo_url = [];
  branch = [];
  token_enc = [];
  webhook_secret = [];
  env_enc = [];
}

abbrev first : Deployment
first = record {
  id = 1;
  project_id = 1;
  status = status_running;
  image_ref = codes "orxies/app:1";
  container_id = codes "c0";
  host_port = 8300;
  commit_sha = [];
  created_at = 1;
  finished_at = some 2;
}

abbrev second : Deployment
second = record first {
  id = 2;
  status = status_building;
  image_ref = [];
  container_id = [];
  host_port = 0;
  finished_at = none;
}

abbrev pub start : World (List Text)
start = record {
  projects = record { rows = app ∷ []; seq = 1 };
  deployments = record { rows = second ∷ first ∷ []; seq = 2 };
  ports = (8300, 1) ∷ [];
  services = record { rows = []; seq = 0; links = [] };
  files = [];
  docker = codes "c0" ∷ [];
  reloads = 0;
}

start-IsHeld : IsHeld start
unfolding program
start-IsHeld = (λ live. absurd (ground arith), (λ live. refl, tt))

goes_live : (run_image manager agent inputs start app second (codes "orxies/app:2")).1 ≡ none
unfolding program
goes_live = refl

old_one_removed :
    (run_image manager agent inputs start app second (codes "orxies/app:2")).0.docker
    ≡ codes "orxies-app-2" ∷ []
unfolding program
old_one_removed = refl

found : find_row 2 start.deployments.rows ≡ some second
unfolding program
found = refl

run_image-IsLive_example :
    IsLive (run_image manager agent inputs start app second (codes "orxies/app:2")).0 app 2
run_image-IsLive_example =
    run_image-IsLive manager agent inputs start app second second (codes "orxies/app:2")
      start-IsHeld found goes_live

abbrev requests : List Action
requests =
    Action.deploy_it inputs 1
    ∷ Action.rollback_it inputs 1 1
    ∷ Action.stop_it 1
    ∷ Action.update_it inputs 1
    ∷ []

-- Every run takes the lowest free port. The fourth deployment was stopped by hand, which the drain
-- of the fifth passes over: its container stays, and so does its port.
ports_after : (act_all manager start requests).ports ≡ (8300, 4) ∷ (8301, 5) ∷ []
unfolding program
ports_after = refl

act_all-Held_example : IsHeld (act_all manager start requests)
act_all-Held_example = act_all-Held manager start requests start-IsHeld

abbrev broken : Inputs
broken = record inputs {
  attempt = λ i. record { cancelled = false; connected = false; took = 2000 };
}

wait_healthy-ends_example : wait_healthy 0 broken.attempt ≢ Health.out_of_fuel
wait_healthy-ends_example = wait_healthy-ends 0 broken.attempt
