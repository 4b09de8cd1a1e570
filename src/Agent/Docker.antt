-- ===== src/Agent/Docker.antt =====
-- internal/agent/docker.go: the Runner that calls the programs `docker` and `nixpacks`. `exec` is a
-- call of a program with its arguments and its standard input, which answers what it prints on its
-- standard output and its standard error, and whether it went well; `join` is filepath.Join.
-- An error of a call reads as what it printed.
pub mod Options
use orxies.Prelude.{
  ℕ, Bool, true, false, ◌||◌, List, [], ◌∷◌, ◌++◌, Option, none, some, ltb, if◌then◌else◌, Text,
  text_eq, codes, is_empty, trim_space, contains,
}
use orxies.Prelude.Decimal.{print_int}
use orxies.Agent.{
  BuildSpec, RunSpec, ExecSpec, Status, Health, Answer, answer, error, Runner, newline,
}

pub record Printed : Type 0 where
  pub out : Text
  pub err : Text
  pub ok : Bool

abbrev pub Exec : Type 0 → Type 0
Exec D = D → Text → List Text → Text → D × Printed

abbrev pub docker_program : Text
docker_program = codes "docker"

abbrev pub publish : RunSpec → List Text
publish s =
    if ltb 0 s.host_port
    then codes "-p"
      ∷ (codes "127.0.0.1:" ++ print_int s.host_port ++ codes ":" ++ print_int s.app_port)
      ∷ []
    else []

abbrev pub join_network : RunSpec → List Text
join_network s = if is_empty s.network then [] else codes "--network" ∷ s.network ∷ []

abbrev pub harden : RunSpec → List Text
harden s =
    if s.unhardened
    then []
    else codes "--security-opt" ∷ codes "no-new-privileges" ∷ codes "--cap-drop" ∷ codes "ALL" ∷ []

abbrev pub limit_memory : RunSpec → List Text
limit_memory s =
    if ltb 0 s.memory_mb then codes "--memory" ∷ (print_int s.memory_mb ++ codes "m") ∷ [] else []

-- An option for each entry of a map, in the order in which the map gives them.
abbrev pub each : Text → Text → List (Text × Text) → List Text
each option between [] = []
each option between ((k, v) ∷ kvs) = option ∷ (k ++ between ++ v) ∷ each option between kvs

abbrev pub mount : List (Text × Text) → List Text
mount volumes = each (codes "-v") (codes ":") volumes

abbrev pub set_env : List (Text × Text) → List Text
set_env env = each (codes "-e") (codes "=") env

unfoldable pub run_args : RunSpec → List Text
run_args s =
    codes "run"
    ∷ codes "-d"
    ∷ codes "--name"
    ∷ s.name
    ∷ codes "--restart"
    ∷ codes "unless-stopped"
    ∷ (publish s
        ++ (join_network s
            ++ (harden s
                ++ (limit_memory s ++ (mount s.volumes ++ (set_env s.env ++ (s.image ∷ [])))))))

unfoldable pub exec_args : List Text → ExecSpec → List Text
exec_args flags s = codes "exec" ∷ (flags ++ (set_env s.env ++ (s.container ∷ s.cmd)))

abbrev pub failure : Printed → Option Text
failure p = if p.ok then none else some (trim_space (p.out ++ p.err))

abbrev pub called : {D : Type 0} → D × Printed → D × Option Text
called (d, p) = (d, failure p)

abbrev pub streamed : {D : Type 0} → D × Printed → D × Text × Option Text
streamed (d, p) = (d, p.out ++ p.err, failure p)

abbrev pub ran_container : {D : Type 0} → D × Printed → D × Answer Text
ran_container (d, p) =
    (d, if p.ok then answer (trim_space (p.out ++ p.err)) else error (trim_space (p.out ++ p.err)))

abbrev pub dumped_out : {D : Type 0} → D × Printed → D × Text × Option Text
dumped_out (d, p) = (d, p.out, if p.ok then none else some (trim_space p.err))

abbrev pub status_of : {D : Type 0} → D × Printed → D × Answer Status
status_of (d, p) =
    let state = trim_space (p.out ++ p.err) in
    (
      d,
      answer (
          if p.ok
          then record { state = state; running = text_eq state (codes "running") }
          else record { state = []; running = false }),
    )

abbrev pub dockerfile_args : (Text → Text → Text) → BuildSpec → List Text
dockerfile_args join s =
    if is_empty s.dockerfile then [] else codes "-f" ∷ join s.source_path s.dockerfile ∷ []

abbrev pub build_args : (Text → Text → Text) → BuildSpec → List Text
build_args join s =
    codes "build" ∷ codes "-t" ∷ s.name ∷ (dockerfile_args join s ++ (s.source_path ∷ []))

module _ {D : Type 0} (exec : Exec D) (join : Text → Text → Text) where
  abbrev pub docker : D → List Text → D × Printed
  docker d args = exec d docker_program args []

  abbrev pub build_image : D → BuildSpec → D × Text × Option Text
  build_image d s =
      if text_eq s.strategy (codes "dockerfile")
      then streamed (docker d (build_args join s))
      else if text_eq s.strategy (codes "nixpacks")
      then streamed (
          exec d (codes "nixpacks") (codes "build" ∷ s.source_path ∷ codes "--name" ∷ s.name ∷ [])
            [])
      else (d, [], some (codes "unknown build strategy"))

  abbrev pub created : D × Printed → D × Option Text
  created (d, p) =
      (d, if p.ok || contains (p.out ++ p.err) (codes "already exists") then none else failure p)

  -- A network that is there is kept.
  abbrev pub ensured : Text → D × Printed → D × Option Text
  ensured name (d, p) =
      if p.ok then (d, none) else created (docker d (codes "network" ∷ codes "create" ∷ name ∷ []))

  abbrev pub health_of : D × Printed → Bool → D × Health
  health_of (d, p) nixpacks = (
    d,
    record {
      ok = p.ok;
      docker = p.ok;
      nixpacks = nixpacks;
      detail = if p.ok then [] else codes "docker daemon unreachable";
    },
  )

  -- `has_nixpacks` is what looking the program up on the path gives.
  unfoldable pub cli_runner : Bool → Runner D
  unfolding run_args exec_args
  cli_runner has_nixpacks = record {
    build = build_image;
    run = λ d s. ran_container (docker d (run_args s));
    stop = λ d name. called (docker d (codes "stop" ∷ name ∷ []));
    remove = λ d name. called (docker d (codes "rm" ∷ codes "-f" ∷ name ∷ []));
    logs = λ d name tail.
        streamed (docker d (codes "logs" ∷ codes "--tail" ∷ print_int tail ∷ name ∷ []));
    status = λ d name.
        status_of (docker d (codes "inspect" ∷ codes "-f" ∷ codes "{{.State.Status}}" ∷ name ∷ []));
    ensure_network =
        λ d name. ensured name (docker d (codes "network" ∷ codes "inspect" ∷ name ∷ []));
    exec_out = λ d s. dumped_out (docker d (exec_args [] s));
    exec_in = λ d s input. called (exec d docker_program (exec_args (codes "-i" ∷ []) s) input);
    health = λ d.
        health_of (docker d (codes "version" ∷ codes "--format" ∷ codes "{{.Server.Version}}" ∷ []))
          has_nixpacks;
  }
