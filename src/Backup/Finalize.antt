-- ===== src/Backup/Finalize.antt =====
-- internal/controller/gameserverbackup_controller.go: finalize.
use gobehost_operator.Prelude.{
  Bool, true, false, not, String, ◌<>◌, Option, none, some, ◌==◌, if◌then◌else◌, contains, delete,
}
use gobehost_operator.Kube.{Key}
use gobehost_operator.Api.{game_server_backup_finalizer, GameServerBackup}
use gobehost_operator.Cluster.{
  not_found, conflict, other_error, ok, err, Api, M, pure, ◌>>=◌, get_fleet, get_job, update_backup,
  create_job, no_requeue, requeue_after, Outcome, done, failed_with, requeue_on_conflict,
  is_not_found,
}
use gobehost_operator.Reconciler.{BackupConfig, build_backup_on_delete_job, get_pvc_name}
use gobehost_operator.Backup.Values.{
  storage, no_storage, storage_failed, JobEnd, still_running, job_succeeded, job_broke, job_end,
}
use gobehost_operator.Backup.Resolve.{resolve_storage}

-- hasBackupFinalizer
unfoldable pub has_backup_finalizer : GameServerBackup → Bool
unfolding contains
has_backup_finalizer backup = contains backup.meta.finalizers game_server_backup_finalizer

abbrev pub drop_backup_finalizer : GameServerBackup → GameServerBackup
drop_backup_finalizer backup = record backup {
  meta = record (backup.meta) {
    finalizers = delete backup.meta.finalizers game_server_backup_finalizer;
  };
}

-- `backupOnDelete`, which is true by default
abbrev pub wants_last_backup : Option Bool → Bool
wants_last_backup none = true
wants_last_backup (some b) = b

abbrev pub has_ended : JobEnd → Bool
has_ended still_running = false
has_ended job_succeeded = true
has_ended (job_broke _) = true

abbrev pub delete_job_key : GameServerBackup → Key
delete_job_key backup = record {
  namespace = backup.meta.namespace;
  name = backup.meta.name <> "-backup-on-delete";
}

module _ (api : Api) where
  -- removeFinalizer
  unfoldable pub remove_backup_finalizer : GameServerBackup → M Outcome
  unfolding has_backup_finalizer delete
  remove_backup_finalizer backup =
      if not (has_backup_finalizer backup) then pure (done no_requeue) else (do
        updated ← update_backup api (drop_backup_finalizer backup)
        elim updated [ err e ↦ pure (requeue_on_conflict e) | ok _ ↦ pure (done no_requeue) ])

  -- The creation of the Job.
  unfoldable pub start_job : GameServerBackup → BackupConfig → String → String → M Outcome
  unfolding build_backup_on_delete_job get_pvc_name
  start_job backup cfg kind name =
      let job = build_backup_on_delete_job backup cfg kind name (get_pvc_name "GameServer" name) in
      elim (api.set_controller_reference backup.meta job.meta) [
        | none ↦ pure (failed_with other_error)
        | some meta ↦ do
          created ← create_job api (record job { meta = meta })
          elim created [ err e ↦ pure (failed_with e) | ok _ ↦ pure (done (requeue_after 5)) ]
      ]

  -- finalize, from the reading of the Job
  unfoldable pub await_job : GameServerBackup → BackupConfig → String → String → M Outcome
  unfolding start_job job_end
  await_job backup cfg kind name = do
    found ← get_job api (delete_job_key backup)
    elim found [
      | ok job ↦
          if has_ended (job_end job.conditions)
          then remove_backup_finalizer backup
          else pure (done (requeue_after 5))
      | err not_found ↦ start_job backup cfg kind name
      | err conflict ↦ pure (failed_with conflict)
      | err other_error ↦ pure (failed_with other_error)
    ]

  -- finalize, from resolveStorageConfig. The name of the claim is never empty here.
  unfoldable pub secure_target : String → GameServerBackup → String → String → M Outcome
  unfolding resolve_storage
  secure_target config_namespace backup kind name = do
    resolved ← resolve_storage api config_namespace backup
    elim resolved [
      | storage_failed _ ↦ remove_backup_finalizer backup
      | no_storage backup' ↦ remove_backup_finalizer backup'
      | storage cfg ↦
          if get_pvc_name "GameServer" name == ""
          then remove_backup_finalizer backup
          else await_job backup cfg kind name
    ]

  -- finalize
  unfoldable pub finalize_backup : String → GameServerBackup → M Outcome
  finalize_backup config_namespace backup =
      let ref = backup.spec.target_ref in
      if not (wants_last_backup backup.spec.backup_on_delete)
      then remove_backup_finalizer backup
      else if ref.kind == "GameServerFleet"
      then (do
        found ← get_fleet api (record { namespace = backup.meta.namespace; name = ref.name })
        elim found [
          | err e ↦ if is_not_found e then remove_backup_finalizer backup else pure (failed_with e)
          | ok fleet ↦
              if fleet.status.current_game_server == ""
              then secure_target config_namespace backup ref.kind ref.name
              else secure_target config_namespace backup "GameServer"
                  fleet.status.current_game_server
        ])
      else secure_target config_namespace backup ref.kind ref.name
