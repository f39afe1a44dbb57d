-- ===== src/Backup/Control.antt =====
-- internal/controller/gameserverbackup_controller.go: Reconcile.
use gobehost_operator.Prelude.{not, String, [], ◌∷◌, ◌++◌, Option, none, some, ◌==◌, if◌then◌else◌}
use gobehost_operator.Kube.{Key, key_of, condition_true, CronJob}
use gobehost_operator.Api.{
  game_server_backup_finalizer, backup_cron_job_created, backup_storage_missing,
  backup_cron_job_failed, GameServerBackup,
}
use gobehost_operator.Cluster.{
  ApiError, not_found, conflict, other_error, ok, err, Api, M, pure, ◌>>=◌, ◌>>◌, now, get_backup,
  get_cron_job, update_backup, update_backup_status, create_cron_job, apply_cron_job, no_requeue,
  requeue, requeue_after, Outcome, done, failed_with, requeue_on_conflict, is_not_found, is_some,
}
use gobehost_operator.Reconciler.{BackupConfig, build_cron_job, get_pvc_name}
use gobehost_operator.Backup.Values.{
  backup_requeue_interval, target, no_target, target_failed, storage, no_storage, storage_failed,
  claim_bound, claim_missing, claim_failed, noted,
}
use gobehost_operator.Backup.Resolve.{
  note, resolve_target, resolve_storage, check_pvc, update_job_status,
}
use gobehost_operator.Backup.Finalize.{has_backup_finalizer, finalize_backup}

-- The edit that reconcileCronJob makes of an existing CronJob.
unfoldable pub mutate_cron_job : CronJob → CronJob → CronJob
mutate_cron_job desired existing = record existing {
  meta = record (existing.meta) { labels = desired.meta.labels };
  schedule = desired.schedule;
  concurrency_policy = desired.concurrency_policy;
  successful_jobs_history_limit = desired.successful_jobs_history_limit;
  failed_jobs_history_limit = desired.failed_jobs_history_limit;
  job_labels = desired.job_labels;
  job_template = desired.job_template;
}

abbrev pub add_backup_finalizer : GameServerBackup → GameServerBackup
add_backup_finalizer backup = record backup {
  meta = record (backup.meta) {
    finalizers = backup.meta.finalizers ++ game_server_backup_finalizer ∷ [];
  };
}

module _ (api : Api) where
  abbrev cron_job_failed : GameServerBackup → String → ApiError → M (Option ApiError)
  cron_job_failed backup message e = do
    note api backup backup_cron_job_failed message
    pure (some e)

  -- reconcileCronJob, with the CronJob built; the error, if there is one
  unfoldable pub store_cron_job : GameServerBackup → CronJob → M (Option ApiError)
  unfolding mutate_cron_job note
  store_cron_job backup cj = do
    found ← get_cron_job api (key_of cj.meta)
    elim found [
      | err not_found ↦ do
        created ← create_cron_job api cj
        elim created [
          | ok _ ↦ pure none
          | err e ↦ cron_job_failed backup "Failed to create CronJob" e
        ]
      | err conflict ↦ pure (some conflict)
      | err other_error ↦ pure (some other_error)
      | ok existing ↦ do
        applied ← apply_cron_job api existing (mutate_cron_job cj)
        elim applied [
          | ok _ ↦ pure none
          | err e ↦ cron_job_failed backup "Failed to update CronJob" e
        ]
    ]

  -- reconcileCronJob
  unfoldable pub reconcile_cron_job :
      GameServerBackup → BackupConfig → String → String → String → M (Option ApiError)
  unfolding store_cron_job build_cron_job
  reconcile_cron_job backup cfg kind name pvc_name =
      let cj = build_cron_job backup cfg kind name pvc_name in
      elim (api.set_controller_reference backup.meta cj.meta) [
        | none ↦ pure (some other_error)
        | some meta ↦ store_cron_job backup (record cj { meta = meta })
      ]

  -- The end of Reconcile, from updateBackupJobStatus.
  unfoldable pub report_ready : GameServerBackup → M Outcome
  unfolding update_job_status noted
  report_ready backup = do
    backup' ← update_job_status api backup
    t ← now api
    written ←
        update_backup_status api
          (noted t backup' condition_true backup_cron_job_created "CronJob created")
    elim written [
      | err e ↦ pure (requeue_on_conflict e)
      | ok _ ↦ pure (done (requeue_after backup_requeue_interval))
    ]

  -- Reconcile from checkPVC
  unfoldable pub with_storage : GameServerBackup → String → String → BackupConfig → M Outcome
  unfolding check_pvc reconcile_cron_job report_ready get_pvc_name
  with_storage backup kind name cfg = do
    claim ← check_pvc api backup kind name
    elim claim [
      | claim_missing ↦ pure (done (requeue_after backup_requeue_interval))
      | claim_failed e ↦ pure (failed_with e)
      | claim_bound ↦ do
        failure ← reconcile_cron_job backup cfg kind name (get_pvc_name "GameServer" name)
        elim failure [ some e ↦ pure (failed_with e) | none ↦ report_ready backup ]
    ]

  -- Reconcile from resolveStorageConfig
  unfoldable pub with_target : String → GameServerBackup → String → String → M Outcome
  unfolding resolve_storage note
  with_target config_namespace backup kind name = do
    resolved ← resolve_storage api config_namespace backup
    elim resolved [
      | storage_failed e ↦ do
        note api backup backup_storage_missing "Storage config is missing or invalid"
        pure (failed_with e)
      | no_storage backup' ↦ do
        note api backup' backup_storage_missing "Storage config not found"
        pure (done (requeue_after backup_requeue_interval))
      | storage cfg ↦ with_storage backup kind name cfg
    ]

  -- Reconcile of a backup with its finalizer
  unfoldable pub reconcile_backup_active : String → GameServerBackup → M Outcome
  unfolding resolve_target
  reconcile_backup_active config_namespace backup = do
    resolved ← resolve_target api backup
    elim resolved [
      | target_failed e ↦ pure (failed_with e)
      | no_target ↦ pure (done (requeue_after 60))
      | target kind name ↦
          if kind == ""
          then pure (done (requeue_after 60))
          else with_target config_namespace backup kind name
    ]

  -- Reconcile
  unfoldable pub reconcile_backup : String → Key → M Outcome
  unfolding has_backup_finalizer
  reconcile_backup config_namespace key = do
    found ← get_backup api key
    elim found [
      | err e ↦ pure (if is_not_found e then done no_requeue else failed_with e)
      | ok backup ↦
          if is_some backup.meta.deletion_timestamp
          then finalize_backup api config_namespace backup
          else if not (has_backup_finalizer backup)
          then (do
            updated ← update_backup api (add_backup_finalizer backup)
            elim updated [ err e ↦ pure (requeue_on_conflict e) | ok _ ↦ pure (done requeue) ])
          else reconcile_backup_active config_namespace backup
    ]
