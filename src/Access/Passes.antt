-- ===== src/Access/Passes.antt =====
-- The passes of the three controllers, one after the other, and what the manager's role says of
-- their calls.
use gobehost_operator.Prelude.{
  ◌≡◌, refl, ◌∙◌, ◌⊎◌, inl, inr, false, String, All, arith, Option-cases,
}
use gobehost_operator.Kube.{Key, Job}
use gobehost_operator.Cluster.{
  not_found, other_error, err, Call, Log, Api, failed_with, count_calls,
}
use gobehost_operator.Cluster.Footprint.{Extends-All}
use gobehost_operator.Adapter.{Registry}
use gobehost_operator.Api.{GameServerBackup}
use gobehost_operator.Reconciler.{BackupConfig, build_backup_on_delete_job, get_pvc_name}
use gobehost_operator.Fleet.{reconcile}
use gobehost_operator.Server.{reconcile_server}
use gobehost_operator.Backup.{
  storage, resolve_storage, delete_job_key, start_job, await_job, secure_target, reconcile_backup,
}
use gobehost_operator.Backup.LastCopy.{
  is_update_backup, Secures-is_update_backup, claim_named, resolve_storage-is_update_backup,
}
use gobehost_operator.Backup.Securing.{Secures, reconcile_backup_reaches}
use gobehost_operator.Access.Role.{Permitted, manager_rules, needs, all_granted}
use gobehost_operator.Access.FleetCalls.{Makes-reconcile}
use gobehost_operator.Access.ServerCalls.{Makes-reconcile_server}
use gobehost_operator.Access.BackupCalls.{Makes-reconcile_backup}

-- Permitted, or the creation of a Job.
abbrev pub Expected : Call → Type 0
Expected c = Permitted c ⊎ ((job : Job) × (c ≡ Call.create_job job))

-- A run of the operator from one log to a later one: passes of any controllers, for any objects,
-- in any order.
pub data Run (api : Api) (registry : Registry) (namespace : String) (before : Log)
    : Log → Type 0 where
  rest : Run api registry namespace before before
  then_fleet :
      (key : Key) {log : Log}
      → Run api registry namespace before log
      → Run api registry namespace before (reconcile api key log).1
  then_server :
      (key : Key) {log : Log}
      → Run api registry namespace before log
      → Run api registry namespace before (reconcile_server api registry key log).1
  then_backup :
      (key : Key) {log : Log}
      → Run api registry namespace before log
      → Run api registry namespace before (reconcile_backup api namespace key log).1

-- Every call of a pass of the fleet controller is permitted.
pub reconcile-Permitted :
    (api : Api) (key : Key) (log : Log)
    → All Permitted log
    → All Permitted (reconcile api key log).1
reconcile-Permitted api key log h =
    Extends-All log _ ((Makes-reconcile {P = Permitted} (λ c p. p) api key).at log) h

pub reconcile_server-Permitted :
    (api : Api) (registry : Registry) (key : Key) (log : Log)
    → All Permitted log
    → All Permitted (reconcile_server api registry key log).1
reconcile_server-Permitted api registry key log h =
    Extends-All log _ ((Makes-reconcile_server {P = Permitted} (λ c p. p) api registry key).at log)
      h

-- In every run of the three controllers, whatever the API server and the game servers answer, each
-- call but the creation of a Job is permitted by the manager's role.
pub Run-Expected :
    (api : Api) (registry : Registry) (namespace : String) (before after : Log)
    → Run api registry namespace before after
    → All Expected before
    → All Expected after
Run-Expected api registry namespace before _ rest h = h
Run-Expected api registry namespace before _ (then_fleet key r) h =
    Extends-All _ _ ((Makes-reconcile {P = Expected} (λ c p. inl p) api key).at _)
      (Run-Expected api registry namespace before _ r h)
Run-Expected api registry namespace before _ (then_server key r) h =
    Extends-All _ _ ((Makes-reconcile_server {P = Expected} (λ c p. inl p) api registry key).at _)
      (Run-Expected api registry namespace before _ r h)
Run-Expected api registry namespace before _ (then_backup key r) h =
    Extends-All _ _
      ((Makes-reconcile_backup {P = Expected} (λ c p. inl p) api (λ job. inr (job, refl)) namespace
          key).at
        _)
      (Run-Expected api registry namespace before _ r h)

await_job_refused :
    (api : Api) (backup : GameServerBackup) (cfg : BackupConfig) (kind name : String) (log : Log)
    → ((log : Log) (job : Job) → api.create_job log job ≡ err other_error)
    → api.get_job log (delete_job_key backup) ≡ err not_found
    → ((await_job api backup cfg kind name log).0 ≡ failed_with other_error)
      × (count_calls is_update_backup (await_job api backup cfg kind name log).1
          ≡ count_calls is_update_backup log)
unfolding await_job start_job
await_job_refused api backup cfg kind name log refused absent =
    let job = build_backup_on_delete_job backup cfg kind name (get_pvc_name "GameServer" name) in
    elim (Option-cases (api.set_controller_reference backup.meta job.meta)) [
      | inl h ↦ rw (absent, h, start_job) (refl, ground arith)
      | inr (meta, h) ↦ rw (absent, h, refused, start_job) (refl, ground arith)
    ]

-- From resolveStorageConfig on.
secure_target_refused :
    (api : Api) (namespace : String) (backup : GameServerBackup) (cfg : BackupConfig)
    (kind name : String) (log : Log)
    → ((log : Log) (job : Job)
        → all_granted manager_rules (needs (Call.create_job job)) ≡ false
        → api.create_job log job ≡ err other_error)
    → (resolve_storage api namespace backup log).0 ≡ storage cfg
    → api.get_job (resolve_storage api namespace backup log).1 (delete_job_key backup)
      ≡ err not_found
    → ((secure_target api namespace backup kind name log).0 ≡ failed_with other_error)
      × (count_calls is_update_backup (secure_target api namespace backup kind name log).1
          ≡ count_calls is_update_backup log)
unfolding secure_target
secure_target_refused api namespace backup cfg kind name log refused h absent =
    let (stopped, kept) =
      await_job_refused api backup cfg kind name (resolve_storage api namespace backup log).1
        (λ l j. refused l j refl) absent in
    rw (h, claim_named name)
      (stopped, kept ∙ resolve_storage-is_update_backup api namespace backup log)

-- Where the API server refuses the creation of a Job that the manager's role does not permit, a backup
-- is being deleted, wants a last copy and names what is no fleet or a fleet that is found, the storage
-- configuration is resolved and the Job for the last copy is not found, the pass over the backup ends
-- in an error and does not update it: its finalizer stays.
pub last_copy_refused :
    (api : Api) (namespace : String) (key : Key) (backup : GameServerBackup) (cfg : BackupConfig)
    (kind name : String) (log before : Log)
    → ((log : Log) (job : Job)
        → all_granted manager_rules (needs (Call.create_job job)) ≡ false
        → api.create_job log job ≡ err other_error)
    → Secures api key backup log kind name before
    → (resolve_storage api namespace backup before).0 ≡ storage cfg
    → api.get_job (resolve_storage api namespace backup before).1 (delete_job_key backup)
      ≡ err not_found
    → ((reconcile_backup api namespace key log).0 ≡ failed_with other_error)
      × (count_calls is_update_backup (reconcile_backup api namespace key log).1
          ≡ count_calls is_update_backup log)
last_copy_refused api namespace key backup cfg kind name log before refused s h absent =
    let (stopped, kept) =
      secure_target_refused api namespace backup cfg kind name before refused h absent in
    rw (reconcile_backup_reaches api namespace key backup log kind name before s)
      (stopped, kept ∙ Secures-is_update_backup api key backup log kind name before s)
