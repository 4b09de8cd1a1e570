-- ===== src/Agent.antt =====
-- internal/agent/agent.go: the agent's HTTP server over the container backend, `Runner`, whose calls
-- change the state `D` of the container engine. The encodings of `encoding/json` and base64
-- and the clean form of a path in `net/http` are parameters, `Wire`, each decoder `none` for an error.
pub mod Client
pub mod Gate
pub mod Docker
mod Tests
use orxies.Prelude.{
  ℕ, ◌+◌, ◌-◌, ◌*◌, Bool, true, false, ◌||◌, not, List, [], ◌∷◌, ◌++◌, Option, none, some, ltb,
  if◌then◌else◌, Text, text_eq, codes, is_empty,
}

pub record BuildSpec : Type 0 where
  pub name : Text
  pub source_path : Text
  pub strategy : Text
  pub dockerfile : Text

pub record RunSpec : Type 0 where
  pub name : Text
  pub image : Text
  pub host_port : ℕ
  pub app_port : ℕ
  pub env : List (Text × Text)
  pub memory_mb : ℕ
  pub network : Text
  pub volumes : List (Text × Text)
  pub unhardened : Bool

pub record ExecSpec : Type 0 where
  pub container : Text
  pub env : List (Text × Text)
  pub cmd : List Text

pub record Status : Type 0 where
  pub state : Text
  pub running : Bool

pub record Health : Type 0 where
  pub ok : Bool
  pub docker : Bool
  pub nixpacks : Bool
  pub detail : Text

pub data Answer (A : Type 0) : Type 0 where
  answer : A → Answer A
  error : Text → Answer A

-- A call that only fails or not gives the text of its error, or `none`. What a call prints stands
-- before that.
pub record Runner (D : Type 0) : Type 0 where
  pub build : D → BuildSpec → D × Text × Option Text
  pub run : D → RunSpec → D × Answer Text
  pub stop : D → Text → D × Option Text
  pub remove : D → Text → D × Option Text
  pub logs : D → Text → ℕ → D × Text × Option Text
  pub status : D → Text → D × Answer Status
  pub ensure_network : D → Text → D × Option Text
  pub exec_out : D → ExecSpec → D × Text × Option Text
  pub exec_in : D → ExecSpec → Text → D × Option Text
  pub health : D → D × Health

pub record Wire : Type 0 where
  pub build_json : BuildSpec → Text
  pub build_of : Text → Option BuildSpec
  pub run_json : RunSpec → Text
  pub run_of : Text → Option RunSpec
  pub exec_json : ExecSpec → Text
  pub exec_of : Text → Option ExecSpec
  pub name_json : Text → Text
  pub name_of : Text → Option Text
  pub id_json : Text → Text
  pub id_of : Text → Option Text
  pub status_json : Status → Text
  pub health_json : Health → Text
  pub base64 : Text → Text
  pub unbase64 : Text → Option Text
  pub clean_path : Text → Text

-- `name` and `tail` are the parameters of the query, empty where they are not given.
pub record AgentRequest : Type 0 where
  pub path : Text
  pub authorization : Text
  pub exec_spec : Text
  pub name : Text
  pub tail : Text
  pub body : Text

-- `exec_status` is the trailer X-Exec-Status.
pub record AgentResponse : Type 0 where
  pub code : ℕ
  pub body : Text
  pub exec_status : Text

abbrev pub reply : ℕ → Text → AgentResponse
reply code body = record { code = code; body = body; exec_status = [] }

abbrev pub bad_request : AgentResponse
bad_request = reply 400 (codes "bad request")

abbrev pub bad_spec : AgentResponse
bad_spec = reply 400 (codes "bad spec")

abbrev pub name_required : AgentResponse
name_required = reply 400 (codes "name required")

abbrev pub unauthorized : AgentResponse
unauthorized = reply 401 (codes "unauthorized")

abbrev pub moved : AgentResponse
moved = reply 301 []

abbrev pub not_found : AgentResponse
not_found = reply 404 (codes "404 page not found")

abbrev pub ok_json : AgentResponse
ok_json = reply 200 (codes "{\"ok\":true}")

abbrev pub newline : ℕ
newline = 10

abbrev pub failed_mark : Text
failed_mark = codes "orxies-build: FAILED:"

abbrev pub ok_mark : Text
ok_mark = codes "orxies-build: OK"

-- The body of a build: its log, and the line that tells how it ended.
abbrev pub build_body : Text → Option Text → Text
build_body log none = log ++ (newline ∷ (ok_mark ++ (newline ∷ [])))
build_body log (some e) = log ++ (newline ∷ (failed_mark ++ (32 ∷ (e ++ (newline ∷ [])))))

abbrev pub ended_build : {D : Type 0} → D × Text × Option Text → D × AgentResponse
ended_build (d, log, e) = (d, reply 200 (build_body log e))

abbrev pub done : {D : Type 0} → D × Option Text → D × AgentResponse
done (d, none) = (d, ok_json)
done (d, some e) = (d, reply 500 e)

abbrev pub exec_ended : {D : Type 0} → D × Text × Option Text → D × AgentResponse
exec_ended (d, out, none) = (d, record { code = 200; body = out; exec_status = codes "ok" })
exec_ended (d, out, some e) =
    (d, record { code = 200; body = out; exec_status = codes "error: " ++ e })

-- `parseTail`.
unfoldable pub parse_tail : Text → ℕ → Option ℕ
parse_tail [] n = some n
parse_tail (c ∷ s) n =
    let rest = parse_tail s (n * 10 + (c - 48)) in if ltb c 48 || ltb 57 c then none else rest

abbrev pub tail_of : Text → ℕ
tail_of v = if is_empty v then 200 else elim (parse_tail v 0) [ none ↦ 200 | some n ↦ n ]

module _ {D : Type 0} (wire : Wire) (runner : Runner D) where
  abbrev pub on_build : D → Option BuildSpec → D × AgentResponse
  on_build d none = (d, bad_request)
  on_build d (some spec) = ended_build (runner.build d spec)

  abbrev pub handle_build : D → AgentRequest → D × AgentResponse
  handle_build d r = on_build d (wire.build_of r.body)

  abbrev pub ran : D × Answer Text → D × AgentResponse
  ran (d, answer id) = (d, reply 200 (wire.id_json id))
  ran (d, error e) = (d, reply 500 e)

  abbrev pub on_run : D → Option RunSpec → D × AgentResponse
  on_run d none = (d, bad_request)
  on_run d (some spec) = ran (runner.run d spec)

  abbrev pub handle_run : D → AgentRequest → D × AgentResponse
  handle_run d r = on_run d (wire.run_of r.body)

  abbrev pub on_name : (D → Text → D × Option Text) → D → Option Text → D × AgentResponse
  on_name fn d none = (d, bad_request)
  on_name fn d (some name) = if is_empty name then (d, bad_request) else done (fn d name)

  -- `byName`, and `handleNetwork`.
  abbrev pub by_name : (D → Text → D × Option Text) → D → AgentRequest → D × AgentResponse
  by_name fn d r = on_name fn d (wire.name_of r.body)

  abbrev pub on_exec_out : D → Option ExecSpec → D × AgentResponse
  on_exec_out d none = (d, bad_request)
  on_exec_out d (some spec) =
      if is_empty spec.container then (d, bad_request) else exec_ended (runner.exec_out d spec)

  abbrev pub handle_exec_out : D → AgentRequest → D × AgentResponse
  handle_exec_out d r = on_exec_out d (wire.exec_of r.body)

  abbrev pub on_exec_in : D → Text → Option ExecSpec → D × AgentResponse
  on_exec_in d input none = (d, bad_spec)
  on_exec_in d input (some spec) =
      if is_empty spec.container then (d, bad_spec) else done (runner.exec_in d spec input)

  abbrev pub on_spec : D → Text → Option Text → D × AgentResponse
  on_spec d input none = (d, bad_spec)
  on_spec d input (some raw) = on_exec_in d input (wire.exec_of raw)

  abbrev pub handle_exec_in : D → AgentRequest → D × AgentResponse
  handle_exec_in d r = on_spec d r.body (wire.unbase64 r.exec_spec)

  abbrev pub logged : D × Text × Option Text → D × AgentResponse
  logged (d, out, e) = (d, reply 200 out)

  abbrev pub handle_logs : D → AgentRequest → D × AgentResponse
  handle_logs d r =
      if is_empty r.name then (d, name_required) else logged (runner.logs d r.name (tail_of r.tail))

  abbrev pub status_sent : D × Answer Status → D × AgentResponse
  status_sent (d, answer st) = (d, reply 200 (wire.status_json st))
  status_sent (d, error e) = (d, reply 500 e)

  abbrev pub handle_status : D → AgentRequest → D × AgentResponse
  handle_status d r =
      if is_empty r.name then (d, name_required) else status_sent (runner.status d r.name)

  abbrev pub handle_health : D → D × AgentResponse
  handle_health d = let (d', h) = runner.health d in (d', reply 200 (wire.health_json h))

  -- A handler behind the check of the secret.
  abbrev pub auth :
      Text → (D → AgentRequest → D × AgentResponse) → D → AgentRequest → D × AgentResponse
  auth secret next d r =
      if is_empty secret || not (text_eq r.authorization secret)
      then (d, unauthorized)
      else next d r

  abbrev pub route : Text → D → AgentRequest → D × AgentResponse
  route secret d r =
      if text_eq r.path (codes "/v1/build")
      then auth secret handle_build d r
      else if text_eq r.path (codes "/v1/run")
      then auth secret handle_run d r
      else if text_eq r.path (codes "/v1/stop")
      then auth secret (by_name runner.stop) d r
      else if text_eq r.path (codes "/v1/remove")
      then auth secret (by_name runner.remove) d r
      else if text_eq r.path (codes "/v1/network")
      then auth secret (by_name runner.ensure_network) d r
      else if text_eq r.path (codes "/v1/exec-out")
      then auth secret handle_exec_out d r
      else if text_eq r.path (codes "/v1/exec-in")
      then auth secret handle_exec_in d r
      else if text_eq r.path (codes "/v1/logs")
      then auth secret handle_logs d r
      else if text_eq r.path (codes "/v1/status")
      then auth secret handle_status d r
      else if text_eq r.path (codes "/v1/health")
      then auth secret (λ d r. handle_health d) d r
      else (d, not_found)

  -- The mux of `Handler`, which sends a path that is not clean to the clean one.
  unfoldable pub serve : Text → D → AgentRequest → D × AgentResponse
  unfolding parse_tail
  serve secret d r =
      if text_eq (wire.clean_path r.path) r.path then route secret d r else (d, moved)
