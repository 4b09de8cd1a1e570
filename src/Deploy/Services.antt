-- ===== src/Deploy/Services.antt =====
-- internal/deploy/services.go: the credentials of the services, the containers that they are run as
-- and what they give to the environment of a project. `Tokens` are what `randToken` gives.
use orxies.Prelude.{
  ℕ, true, List, [], ◌∷◌, ◌++◌, Option, none, some, if◌then◌else◌, Text, text_eq, text_key, codes,
  is_empty, insert,
}
use orxies.Prelude.Decimal.{print_int}
use orxies.Store.Projects.{Project}
use orxies.Store.Services.{Service, ServiceTable, linked_rows, linked_services}
use orxies.Agent.{RunSpec}
use orxies.Deploy.{Creds, Box, Manager, network_name, safe_name}

abbrev pub EnvMap : Type 0
EnvMap = List (Text × Text)

abbrev pub service_name : Text → Text
service_name name = codes "orxies-svc-" ++ safe_name name

abbrev pub no_creds : Creds
no_creds = record { user = []; pass = []; db = []; host = []; port = 0; url = [] }

unfoldable pub encrypted : Option Box → Text → Text
encrypted none b = b
encrypted (some box) b = elim (box.encrypt b) [ none ↦ b | some enc ↦ enc ]

unfoldable pub decrypted : Option Box → Text → Text
decrypted none b = b
decrypted (some box) b = elim (box.decrypt b) [ none ↦ b | some dec ↦ dec ]

unfoldable pub store_creds : {D : Type 0} → Manager D → Service → Creds → Service
unfolding encrypted
store_creds m svc c = record svc { creds_enc = encrypted m.secrets (m.json.marshal_creds c) }

unfoldable pub decode_creds : {D : Type 0} → Manager D → Service → Creds
unfolding decrypted
decode_creds m svc = m.json.unmarshal_creds (decrypted m.secrets svc.creds_enc)

-- `SetExternalCreds`.
unfoldable pub set_external_creds : {D : Type 0} → Manager D → Service → Text → Service
unfolding store_creds
set_external_creds m svc url = store_creds m svc (record no_creds { url = url })

pub record Tokens : Type 0 where
  pub first : Text
  pub second : Text

abbrev pub service_creds : Text → Text → ℕ → Creds
service_creds name pass port = record {
  user = codes "orxies";
  pass = pass;
  db = codes "app";
  host = name;
  port = port;
  url = [];
}

abbrev pub service_spec : Text → Text → ℕ → EnvMap → Text → RunSpec
service_spec name image memory env path = record {
  name = name;
  image = image;
  host_port = 0;
  app_port = 0;
  env = env;
  memory_mb = memory;
  network = network_name;
  volumes = (name ++ codes "-data", path) ∷ [];
  unhardened = true;
}

abbrev pub postgres_spec : Text → Creds → RunSpec
postgres_spec name c =
    service_spec name (codes "postgres:16-alpine") 512
      ((codes "POSTGRES_USER", c.user)
        ∷ (codes "POSTGRES_PASSWORD", c.pass)
        ∷ (codes "POSTGRES_DB", c.db)
        ∷ [])
      (codes "/var/lib/postgresql/data")

abbrev pub mysql_spec : Text → Text → Creds → RunSpec
mysql_spec name root c =
    service_spec name (codes "mysql:8") 512
      ((codes "MYSQL_ROOT_PASSWORD", root)
        ∷ (codes "MYSQL_DATABASE", c.db)
        ∷ (codes "MYSQL_USER", c.user)
        ∷ (codes "MYSQL_PASSWORD", c.pass)
        ∷ [])
      (codes "/var/lib/mysql")

abbrev pub redis_creds : Text → Creds
redis_creds name = record no_creds {
  host = name;
  port = 6379;
  url = codes "redis://" ++ name ++ codes ":6379";
}

-- `none` for an unknown engine.
unfoldable pub engine_spec : Service → Tokens → Option (RunSpec × Creds)
engine_spec svc tokens =
    let name = service_name svc.name in
    let postgres = service_creds name tokens.first 5432 in
    let mysql = service_creds name tokens.first 3306 in
    if text_eq svc.engine (codes "postgres")
    then some (postgres_spec name postgres, postgres)
    else if text_eq svc.engine (codes "mysql")
    then some (mysql_spec name tokens.second mysql, mysql)
    else if text_eq svc.engine (codes "redis")
    then some (service_spec name (codes "redis:7-alpine") 256 [] (codes "/data"), redis_creds name)
    else none

abbrev pub url_of : Text → Creds → Text
url_of scheme c =
    scheme
    ++ codes "://"
    ++ c.user
    ++ codes ":"
    ++ c.pass
    ++ codes "@"
    ++ c.host
    ++ codes ":"
    ++ print_int c.port
    ++ codes "/"
    ++ c.db

abbrev pub url_or : Creds → Text → Text
url_or c url = if is_empty c.url then url else c.url

unfoldable pub service_env : Service → Creds → EnvMap
service_env svc c =
    if text_eq svc.engine (codes "postgres")
    then (codes "DATABASE_URL", url_or c (url_of (codes "postgresql") c))
      ∷ (codes "PGHOST", c.host)
      ∷ (codes "PGPORT", print_int c.port)
      ∷ (codes "PGUSER", c.user)
      ∷ (codes "PGPASSWORD", c.pass)
      ∷ (codes "PGDATABASE", c.db)
      ∷ []
    else if text_eq svc.engine (codes "mysql")
    then (codes "DATABASE_URL", url_or c (url_of (codes "mysql") c))
      ∷ (codes "MYSQL_HOST", c.host)
      ∷ (codes "MYSQL_PORT", print_int c.port)
      ∷ (codes "MYSQL_USER", c.user)
      ∷ (codes "MYSQL_PASSWORD", c.pass)
      ∷ (codes "MYSQL_DATABASE", c.db)
      ∷ []
    else if text_eq svc.engine (codes "redis")
    then (codes "REDIS_URL", url_or c (codes "redis://" ++ c.host ++ codes ":" ++ print_int c.port))
      ∷ []
    else if is_empty c.url
    then []
    else (codes "DATABASE_URL", c.url) ∷ []

unfoldable pub insert_all : EnvMap → EnvMap → EnvMap
insert_all [] env = env
insert_all ((k, v) ∷ kvs) env = insert_all kvs (insert k v env)

abbrev pub given : Option EnvMap → EnvMap
given none = []
given (some kv) = insert_all kv []

unfoldable pub custom_env : {D : Type 0} → Manager D → Project → EnvMap
unfolding insert_all
custom_env m p = elim m.secrets [
  | none ↦ []
  | some box ↦
      if is_empty p.env_enc
      then []
      else elim (box.decrypt p.env_enc) [ none ↦ [] | some dec ↦ given (m.json.unmarshal_env dec) ]
]

unfoldable pub inject : {D : Type 0} → Manager D → List Service → EnvMap → EnvMap
unfolding insert_all service_env decode_creds
inject m [] env = env
inject m (svc ∷ svcs) env = inject m svcs (insert_all (service_env svc (decode_creds m svc)) env)

unfoldable pub env_for_project : {D : Type 0} → Manager D → ServiceTable → Project → EnvMap
unfolding custom_env inject linked_rows
env_for_project m t p = inject m (linked_services t p.id) (custom_env m p)
