-- ===== src/Agent/Client.antt =====
-- internal/agent/client.go: the control plane's client of the agent. `send` is the way to the server
-- and back, `none` where a request does not get through; `trim` of an error is left out, and so is
-- the log of a build, whose lines are taken to be shorter than the 4 MB of the source's scanner. The
-- client makes an `Orchestrator` of Deploy, as does a Runner used at once.
pub mod Marks
pub mod Refines
use orxies.Prelude.{
  ℕ, Bool, true, false, ◌&&◌, ◌||◌, not, List, [], ◌∷◌, ◌++◌, Option, none, some, ◌==◌,
  if◌then◌else◌, Text, text_eq, codes, is_empty, split, has_prefix,
}
use orxies.Deploy.{Orchestrator}
use orxies.Agent.{
  BuildSpec, RunSpec, ExecSpec, Answer, answer, error, Runner, Wire, AgentRequest, AgentResponse,
  newline, failed_mark,
}

abbrev pub Sent : Type 0 → Type 0
Sent D = D × Option AgentResponse

-- `newReq`.
abbrev pub request : Text → Text → Text → AgentRequest
request secret path body = record {
  path = path;
  authorization = secret;
  exec_spec = [];
  name = [];
  tail = [];
  body = body;
}

abbrev pub any_failed : List Text → Bool
any_failed [] = false
any_failed (line ∷ lines) = has_prefix line failed_mark || any_failed lines

-- A build has failed where a line says so.
unfoldable pub build_failed : Text → Bool
build_failed body = any_failed (split body newline)

abbrev pub is_ok : AgentResponse → Bool
is_ok r = r.code == 200

abbrev pub built : {D : Type 0} → Sent D → D × Bool
built (d, none) = (d, false)
built (d, some r) = (d, is_ok r && not (build_failed r.body))

abbrev pub started : {D : Type 0} → Wire → Sent D → D × Option Text
started wire (d, none) = (d, none)
started wire (d, some r) = (d, if is_ok r then wire.id_of r.body else none)

abbrev pub accepted : {D : Type 0} → Sent D → D × Bool
accepted (d, none) = (d, false)
accepted (d, some r) = (d, is_ok r)

-- The trailer of a dump: an error only where it is given and is not `ok`.
abbrev pub is_fine : Text → Bool
is_fine status = is_empty status || text_eq status (codes "ok")

abbrev pub dumped : {D : Type 0} → Sent D → D × Option Text
dumped (d, none) = (d, none)
dumped (d, some r) = (d, if is_ok r && is_fine r.exec_status then some r.body else none)

module _ {D : Type 0} (wire : Wire) (send : D → AgentRequest → Sent D) (secret : Text) where
  abbrev pub post : D → Text → Text → Sent D
  post d path body = send d (request secret path body)

  unfoldable pub client : Orchestrator D
  unfolding build_failed
  client = record {
    build = λ d spec. built (post d (codes "/v1/build") (wire.build_json spec));
    run = λ d spec. started wire (post d (codes "/v1/run") (wire.run_json spec));
    stop = λ d name. accepted (post d (codes "/v1/stop") (wire.name_json name));
    remove = λ d name. accepted (post d (codes "/v1/remove") (wire.name_json name));
    ensure_network = λ d name. accepted (post d (codes "/v1/network") (wire.name_json name));
    exec_out = λ d spec. dumped (post d (codes "/v1/exec-out") (wire.exec_json spec));
    exec_in = λ d spec input. accepted (
        send d (record (request secret (codes "/v1/exec-in") input) {
          exec_spec = wire.base64 (wire.exec_json spec);
        }));
  }

abbrev pub succeeded : {D : Type 0} → D × Option Text → D × Bool
succeeded (d, none) = (d, true)
succeeded (d, some e) = (d, false)

abbrev pub built_here : {D : Type 0} → D × Text × Option Text → D × Bool
built_here (d, log, none) = (d, true)
built_here (d, log, some e) = (d, false)

abbrev pub id_given : {D : Type 0} → D × Answer Text → D × Option Text
id_given (d, answer id) = (d, some id)
id_given (d, error e) = (d, none)

abbrev pub output_given : {D : Type 0} → D × Text × Option Text → D × Option Text
output_given (d, out, none) = (d, some out)
output_given (d, out, some e) = (d, none)

-- A Runner without the way over the socket.
abbrev pub direct : {D : Type 0} → Runner D → Orchestrator D
direct runner = record {
  build = λ d spec. built_here (runner.build d spec);
  run = λ d spec. id_given (runner.run d spec);
  stop = λ d name. succeeded (runner.stop d name);
  remove = λ d name. succeeded (runner.remove d name);
  ensure_network = λ d name. succeeded (runner.ensure_network d name);
  exec_out = λ d spec. output_given (runner.exec_out d spec);
  exec_in = λ d spec input. succeeded (runner.exec_in d spec input);
}
