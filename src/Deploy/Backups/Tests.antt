-- ===== src/Deploy/Backups/Tests.antt =====
-- A dump of a managed database, and its way back.
use orxies.Prelude.{
  ◌≡◌, refl, true, List, [], ◌∷◌, some, Text, codes, text_key, insert, lookup, sort_by,
}
use orxies.Store.Services.{Service, find_service}
use orxies.Deploy.{Orchestrator, Manager, World}
use orxies.Deploy.Services.{decrypted, decode_creds}
use orxies.Deploy.Tests.{agent, manager, start}
use orxies.Deploy.Backups.{
  safe_backup_name, dump_command, restore_command, Dumps, backup_service, restore_service,
  list_backups,
}

program : Unit {0}
unfolding find_service decrypted decode_creds insert lookup sort_by safe_backup_name dump_command
    restore_command backup_service restore_service list_backups
program = tt

abbrev orders : Service
orders = record {
  id = 1;
  name = codes "orders";
  engine = codes "postgres";
  mode = codes "managed";
  container_id = codes "s1";
  status = codes "running";
  creds_enc = [];
  created_at = 1;
}

-- The engine prints its containers, and remembers what it is fed.
abbrev printing : Orchestrator (List Text)
printing = record agent {
  exec_out = λ d s. (d, some (codes "INSERT"));
  exec_in = λ d s t. (t ∷ d, true);
}

abbrev keeper : Manager (List Text)
keeper = record manager { agent = some printing }

abbrev with_orders : World (List Text)
with_orders = record start { services = record { rows = orders ∷ []; seq = 1; links = [] } }

abbrev dump_name : Text
dump_name = codes "20260101-000000.sql"

abbrev dumps : Dumps
dumps = (codes "orders", (dump_name, codes "INSERT") ∷ []) ∷ []

fed_back :
    (restore_service keeper with_orders dumps 1 dump_name).0.docker
    ≡ codes "INSERT" ∷ codes "c0" ∷ []
unfolding program
fed_back = refl

is_listed : list_backups with_orders dumps 1 ≡ some (dump_name ∷ [])
unfolding program
is_listed = refl

outside : (restore_service keeper with_orders dumps 1 (codes "../x.sql")).0.docker ≡ start.docker
unfolding program
outside = refl

abbrev later : World (List Text)
later = record with_orders { docker = [] }
