-- ===== src/Backup/LastJob.antt =====
-- The status of a backup: its latest job, and its readiness.
use gobehost_operator.Prelude.{
  ◌≤◌, ◌≡◌, refl, String, List, [], ◌∷◌, Option, none, some, StringMap, arith, ltb, if◌then◌else◌,
  All,
}
use gobehost_operator.Kube.{Time, Key, ConditionStatus, condition_false, Condition, Job}
use gobehost_operator.Api.{
  backup_ready, backup_storage_missing, backup_invalid_creds, GameServerBackup,
}
use gobehost_operator.Cluster.{not_found, ok, err, Call, Log, Api}
use gobehost_operator.Reconciler.{set_backup_condition}
use gobehost_operator.Backup.Values.{no_storage, noted, secret_of, latest_from}
use gobehost_operator.Backup.Resolve.{note, check_secret, resolve_storage}
use gobehost_operator.Backup.Control.{with_target}
use gobehost_operator.Reconciler.OneCondition.{find_condition, find-put_condition}

abbrev pub created_at : Job → Time
created_at j = j.meta.creation_timestamp

abbrev newer : Job → Job → Job
newer best j = if ltb (created_at best) (created_at j) then j else best

newer_ge :
    (best j : Job)
    → (created_at best ≤ created_at (newer best j)) × (created_at j ≤ created_at (newer best j))
newer_ge best j = ground arith

latest_from_ge :
    (best : Job) (jobs : List Job) → created_at best ≤ created_at (latest_from best jobs)
unfolding latest_from
latest_from_ge best [] = omega arith
latest_from_ge best (j ∷ jobs) =
    omega (arith, (newer_ge best j).0, latest_from_ge (newer best j) jobs)

-- The job that the loop ends with was created no earlier than the one it starts with and any job of
-- the list.
pub latest_from-All :
    (best : Job) (jobs : List Job)
    → (created_at best ≤ created_at (latest_from best jobs))
      × All (λ j. created_at j ≤ created_at (latest_from best jobs)) jobs
unfolding latest_from
latest_from-All best [] = (omega arith, tt)
latest_from-All best (j ∷ jobs) =
    let rest = latest_from-All (newer best j) jobs in
    (latest_from_ge best (j ∷ jobs), (omega (arith, (newer_ge best j).1, rest.0), rest.1))

abbrev pub reason_of : Option Condition → String
reason_of none = ""
reason_of (some c) = c.reason

noted-reason :
    (t : Time) (backup : GameServerBackup) (status : ConditionStatus) (reason message : String)
    → reason_of
        (find_condition backup_ready (noted t backup status reason message).status.conditions)
      ≡ reason
unfolding noted set_backup_condition
noted-reason t backup status reason message = rw find-put_condition refl

note-log :
    (api : Api) (backup : GameServerBackup) (reason message : String) (log : Log)
    → (note api backup reason message log).1
      ≡ Call.update_backup_status (noted (api.now log) backup condition_false reason message) ∷ log
unfolding note
note-log api backup reason message log = ground arith

abbrev config_key : String → Key
config_key namespace = record { namespace = namespace; name = "gobehost-backup-config" }

-- The resolution of a configuration whose Secret is missing.
resolve_storage_missing :
    (api : Api) (namespace : String) (backup : GameServerBackup) (secret : String)
    (entries : StringMap) (log : Log)
    → api.get_config_map log (config_key namespace) ≡ ok entries
    → secret_of backup.spec.storage ≡ some secret
    → api.get_secret
        (Call.get_config_map (config_key namespace) ∷ log)
        (record { namespace = backup.meta.namespace; name = secret })
      ≡ err not_found
    → (backup' : GameServerBackup) × ((resolve_storage api namespace backup log).0
        ≡ no_storage backup')
unfolding resolve_storage check_secret
resolve_storage_missing api namespace backup secret entries log c s m =
    let found : Log = Call.get_config_map (config_key namespace) ∷ log in
    let key : Key = record { namespace = backup.meta.namespace; name = secret } in
    (
      (note api backup backup_invalid_creds "Referenced Secret not found"
          (Call.get_secret key ∷ found)).0,
      rw (c, s, m) refl,
    )

-- With the platform's configuration present, when the Secret that a backup names is not found, the
-- last status written says that the storage configuration is missing.
pub invalid_creds_hidden :
    (api : Api) (namespace : String) (backup : GameServerBackup) (kind name secret : String)
    (entries : StringMap) (log : Log)
    → api.get_config_map log (record { namespace = namespace; name = "gobehost-backup-config" })
      ≡ ok entries
    → secret_of backup.spec.storage ≡ some secret
    → api.get_secret
        (Call.get_config_map (record { namespace = namespace; name = "gobehost-backup-config" })
          ∷ log)
        (record { namespace = backup.meta.namespace; name = secret })
      ≡ err not_found
    → (w : GameServerBackup) × (earlier : Log) × ((with_target api namespace backup kind name log).1
        ≡ Call.update_backup_status w ∷ earlier)
      × (reason_of (find_condition backup_ready w.status.conditions) ≡ backup_storage_missing)
unfolding with_target
invalid_creds_hidden api namespace backup kind name secret entries log c s m =
    let (backup', e) = resolve_storage_missing api namespace backup secret entries log c s m in
    let log' = (resolve_storage api namespace backup log).1 in
    (
      noted (api.now log') backup' condition_false backup_storage_missing
          "Storage config not found",
      log',
      rw (e, with_target)
          (note-log api backup' backup_storage_missing "Storage config not found" log'),
      noted-reason (api.now log') backup' condition_false backup_storage_missing
          "Storage config not found",
    )
