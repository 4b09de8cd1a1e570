-- ===== src/Deploy/Backups/Roundtrips.antt =====
-- internal/deploy/services.go: a dump that is taken is what a restore feeds back.
use orxies.Prelude.{ℕ, ◌≡◌, true, some, Text, text_key}
use orxies.Store.Services.{Service, get_service}
use orxies.Agent.{ExecSpec}
use orxies.Deploy.{Orchestrator, Manager, World}
use orxies.Deploy.Services.{decode_creds}
use orxies.Deploy.Backups.Commands.{Programs}
use orxies.Deploy.Backups.{
  safe_backup_name, Dumps, Backup, backup_failed, backup_done, restored, restore_service,
}

-- The agent has printed the content at the dump, in the world `w`, and a restore of the name, in the
-- world `v`, feeds just that content to the database of the service.
pub record IsRestorable {D : Type 0} (m : Manager D) (w v : World D) (dumps : Dumps) (id : ℕ)
    (name : Text) : Type 0 where
  pub agent : Orchestrator D
  pub svc : Service
  pub content : Text
  pub out : ExecSpec
  pub back : ExecSpec
  pub is_agent : m.agent ≡ some agent
  pub found : get_service w.services id ≡ some svc
  pub programs : Programs svc (decode_creds m svc) out back
  pub printed : (agent.exec_out w.docker out).1 ≡ some content
  pub restores :
      restore_service m v dumps id name ≡ restored v (agent.exec_in v.docker back content)

module _ {D : Type 0} (m : Manager D) (w v : World D) (dumps : Dumps) (id : ℕ) (name : Text)
    (safe : safe_backup_name name ≡ true)
    (same : get_service v.services id ≡ get_service w.services id) where
  -- What a dump that is done leaves can be restored.
  abbrev Taken : Backup D → Type 0
  Taken (backup_failed w' e) = Unit
  Taken (backup_done w' dumps' n) = IsRestorable m w v dumps' id n
