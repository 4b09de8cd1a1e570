-- ===== src/Agent/Tests.antt =====
-- An agent over an engine that counts its containers, and the theorems at it.
mod Codes
use orxies.Prelude.{
  ℕ, suc, ◌+◌, ◌-◌, ◌≤◌, ◌≡◌, refl, true, false, [], ◌∷◌, ◌++◌, none, some, Text, codes, drop, ◌||◌,
  not, is_empty, text_eq,
}
use orxies.Agent.{
  BuildSpec, RunSpec, Answer, answer, error, Runner, AgentRequest, AgentResponse, parse_tail, serve,
}
use orxies.Agent.Client.{client, build_failed}
use orxies.Agent.Client.Refines.{over, Refines, client-Refines}
use orxies.Agent.Docker.{run_args}
use orxies.Agent.Docker.Options.{read_options, run_options, run_args-options}
use orxies.Agent.Gate.{Guarded, serve-Guarded}
use Codes.{wire, wire-IsWire}

program : Unit {0}
unfolding parse_tail serve client build_failed run_args read_options
program = tt

abbrev runner : Runner ℕ
runner = record {
  build = λ d s. (d, codes "step 1", none);
  run = λ d s. (suc d, answer (codes "c1"));
  stop = λ d n. (d, none);
  remove = λ d n. (d - 1, none);
  logs = λ d n tail. (d, [], none);
  status = λ d n. (d, error []);
  ensure_network = λ d n. (d, none);
  exec_out = λ d s. (d, codes "dump", none);
  exec_in = λ d s input. (d, none);
  health = λ d. (d, record { ok = true; docker = true; nixpacks = true; detail = [] });
}

abbrev spec : RunSpec
spec = record {
  name = codes "orxies-app-1";
  image = codes "orxies/app:1";
  host_port = 8300;
  app_port = 3000;
  env = (codes "-p", codes "0.0.0.0:1:1") ∷ [];
  memory_mb = 512;
  network = codes "orxies-net";
  volumes = [];
  unhardened = false;
}

abbrev secret : Text
secret = codes "s3cret"

client-Refines_example : Refines wire runner (client wire (over wire runner secret) secret)
client-Refines_example = client-Refines wire runner secret wire-IsWire refl

container_run : (client wire (over wire runner secret) secret).run 0 spec ≡ (1, some (codes "c1"))
unfolding program
container_run = refl

abbrev stop_request : AgentRequest
stop_request = record {
  path = codes "/v1/remove";
  authorization = codes "guess";
  exec_spec = [];
  name = [];
  tail = [];
  body = codes "orxies-app-1";
}

serve-Guarded_example : Guarded secret 4 stop_request (serve wire runner secret 4 stop_request)
serve-Guarded_example = serve-Guarded wire runner secret 4 stop_request

nothing_removed : (serve wire runner secret 4 stop_request).0 ≡ 4
unfolding program
nothing_removed = refl

run_args-options_example :
    read_options (drop 1 (run_args spec))
    ≡ record { options = run_options spec; rest = codes "orxies/app:1" ∷ [] }
run_args-options_example = run_args-options spec refl
