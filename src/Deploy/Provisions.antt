-- ===== src/Deploy/Provisions.antt =====
-- internal/deploy/services.go: ProvisionService and RemoveService.
use orxies.Prelude.{ℕ, Option, none, some, if◌then◌else◌, Text, text_eq, codes}
use orxies.Store.Services.{
  Service, find_service, get_service, update_services, update_service, without_service, keep_links,
  delete_service,
}
use orxies.Agent.{RunSpec}
use orxies.Deploy.{Orchestrator, Creds, Manager, World, network_name}
use orxies.Deploy.Services.{Tokens, service_name, store_creds, engine_spec}

pub data ServiceError : Type 0 where
  not_found no_agent unknown_engine start_failed : ServiceError
  not_managed unsupported failed_exec bad_name missing : ServiceError

abbrev pub with_service : {D : Type 0} → World D → Service → World D
with_service w svc = record w { services = update_service w.services svc }

-- What the answer of the agent makes of the service.
abbrev pub started :
    {D : Type 0} → World D → Service → D × Option Text → World D × Option ServiceError
started w svc (docker, none) = (
  with_service (record w { docker = docker }) (record svc { status = codes "failed" }),
  some ServiceError.start_failed,
)
started w svc (docker, some id) = (
  with_service (record w { docker = docker })
      (record svc { container_id = id; status = codes "running" }),
  none,
)

-- The network is made and a container of the name removed first; errors of both are passed over.
unfoldable pub start_service :
    {D : Type 0}
    → Manager D
    → Orchestrator D
    → World D
    → Service
    → RunSpec × Creds
    → World D × Option ServiceError
unfolding store_creds update_services
start_service m agent w svc (spec, creds) =
    let named = (agent.ensure_network w.docker network_name).0 in
    let cleared = (agent.remove named (service_name svc.name)).0 in
    started w (store_creds m svc creds) (agent.run cleared spec)

abbrev pub provision :
    {D : Type 0} → Manager D → World D → Tokens → Service → World D × Option ServiceError
provision m w tokens svc =
    if text_eq svc.mode (codes "external")
    then (with_service w (record svc { status = codes "external" }), none)
    else elim m.agent [
      | none ↦ (w, some ServiceError.no_agent)
      | some agent ↦ elim (engine_spec svc tokens) [
        | none ↦ (w, some ServiceError.unknown_engine)
        | some spec ↦ start_service m agent w svc spec
      ]
    ]

unfoldable pub provision_service :
    {D : Type 0} → Manager D → World D → ℕ → Tokens → World D × Option ServiceError
unfolding start_service engine_spec find_service update_services
provision_service m w id tokens = elim (get_service w.services id) [
  | none ↦ (w, some ServiceError.not_found)
  | some svc ↦ provision m w tokens svc
]

abbrev pub without_container : {D : Type 0} → Option (Orchestrator D) → D → Service → D
without_container none docker svc = docker
without_container (some agent) docker svc =
    if text_eq svc.mode (codes "managed")
    then (agent.remove docker (service_name svc.name)).0
    else docker

unfoldable pub remove_service :
    {D : Type 0} → Manager D → World D → ℕ → World D × Option ServiceError
unfolding find_service without_service keep_links
remove_service m w id = elim (get_service w.services id) [
  | none ↦ (w, some ServiceError.not_found)
  | some svc ↦ (
    record w {
      docker = without_container m.agent w.docker svc;
      services = delete_service w.services id;
    },
    none,
  )
]
