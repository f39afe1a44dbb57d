-- ===== src/Access/BackupCalls.antt =====
-- The calls of a pass of the backup controller, operation by operation.
use gobehost_operator.Prelude.{String, Option, none, some, Option-cases, inl, inr}
use gobehost_operator.Kube.{Key, Job, CronJob}
use gobehost_operator.Cluster.{Call, Api}
use gobehost_operator.Cluster.Footprint.{Makes, footprint}
use gobehost_operator.Api.{GameServerBackup}
use gobehost_operator.Reconciler.{
  BackupConfig, build_cron_job, build_backup_on_delete_job, get_pvc_name,
}
use gobehost_operator.Backup.{
  note, resolve_target, check_secret, resolve_storage, check_pvc, update_job_status,
  remove_backup_finalizer, start_job, await_job, secure_target, finalize_backup, store_cron_job,
  reconcile_cron_job, report_ready, with_storage, with_target, reconcile_backup_active,
  reconcile_backup,
}
use gobehost_operator.Access.Role.{Permitted}
use gobehost_operator.Backup.Answers.{
  Makes-reading, Makes-failure, Makes-target, Makes-storage, Makes-claim,
}

module _ {P : Call → Type 0} (permit : (c : Call) → Permitted c → P c) (api : Api) where
  Makes-note :
      (backup : GameServerBackup) (reason message : String)
      → Makes P (note api backup reason message)
  unfolding note
  Makes-note backup reason message = search (footprint, permit)

  Makes-resolve_target : (backup : GameServerBackup) → Makes P (resolve_target api backup)
  unfolding resolve_target
  Makes-resolve_target backup = search (footprint, permit, Makes-note) depth 9

  Makes-check_secret :
      (backup : GameServerBackup) (platform : BackupConfig) (secret : Option String)
      → Makes P (check_secret api backup platform secret)
  unfolding check_secret
  Makes-check_secret backup platform none = search (footprint)
  Makes-check_secret backup platform (some name) = search (footprint, permit, Makes-note) depth 9

  Makes-resolve_storage :
      (namespace : String) (backup : GameServerBackup)
      → Makes P (resolve_storage api namespace backup)
  unfolding resolve_storage
  Makes-resolve_storage namespace backup = search (footprint, permit, Makes-check_secret) depth 9

  Makes-check_pvc :
      (backup : GameServerBackup) (kind name : String) → Makes P (check_pvc api backup kind name)
  unfolding check_pvc
  Makes-check_pvc backup kind name = search (footprint, permit, Makes-note) depth 9

  Makes-update_job_status : (backup : GameServerBackup) → Makes P (update_job_status api backup)
  unfolding update_job_status
  Makes-update_job_status backup = search (footprint, permit) depth 9

  Makes-remove_backup_finalizer :
      (backup : GameServerBackup) → Makes P (remove_backup_finalizer api backup)
  unfolding remove_backup_finalizer
  Makes-remove_backup_finalizer backup = search (footprint, permit)

  Makes-report_ready : (backup : GameServerBackup) → Makes P (report_ready api backup)
  unfolding report_ready
  Makes-report_ready backup = search (footprint, permit, Makes-update_job_status) depth 9

  Makes-store_cron_job :
      (backup : GameServerBackup) (cj : CronJob) → Makes P (store_cron_job api backup cj)
  unfolding store_cron_job
  Makes-store_cron_job backup cj = search (footprint, Makes-reading, permit, Makes-note) depth 9

  Makes-reconcile_cron_job :
      (backup : GameServerBackup) (cfg : BackupConfig) (kind name claim : String)
      → Makes P (reconcile_cron_job api backup cfg kind name claim)
  unfolding reconcile_cron_job
  Makes-reconcile_cron_job backup cfg kind name claim =
      let cj = build_cron_job backup cfg kind name claim in
      elim (Option-cases (api.set_controller_reference backup.meta cj.meta)) [
        | inl h ↦ rw (h, reconcile_cron_job) (search (footprint))
        | inr (meta, h) ↦ rw (h, reconcile_cron_job) (search (Makes-store_cron_job))
      ]

  Makes-with_storage :
      (backup : GameServerBackup) (kind name : String) (cfg : BackupConfig)
      → Makes P (with_storage api backup kind name cfg)
  unfolding with_storage
  Makes-with_storage backup kind name cfg =
      search
        (
          footprint, Makes-claim, Makes-failure, Makes-check_pvc, Makes-reconcile_cron_job,
          Makes-report_ready,
        )
        depth 9

  Makes-with_target :
      (namespace : String) (backup : GameServerBackup) (kind name : String)
      → Makes P (with_target api namespace backup kind name)
  unfolding with_target
  Makes-with_target namespace backup kind name =
      search (footprint, Makes-storage, Makes-resolve_storage, Makes-note, Makes-with_storage) depth
        9

  Makes-reconcile_backup_active :
      (namespace : String) (backup : GameServerBackup)
      → Makes P (reconcile_backup_active api namespace backup)
  unfolding reconcile_backup_active
  Makes-reconcile_backup_active namespace backup =
      search (footprint, Makes-target, Makes-resolve_target, Makes-with_target) depth 9

  module _ (job_too : (job : Job) → P (Call.create_job job)) where
    Makes-start_job :
        (backup : GameServerBackup) (cfg : BackupConfig) (kind name : String)
        → Makes P (start_job api backup cfg kind name)
    unfolding start_job
    Makes-start_job backup cfg kind name =
        let job =
          build_backup_on_delete_job backup cfg kind name (get_pvc_name "GameServer" name) in
        elim (Option-cases (api.set_controller_reference backup.meta job.meta)) [
          | inl h ↦ rw (h, start_job) (search (footprint))
          | inr (meta, h) ↦ rw (h, start_job) (search (footprint, job_too))
        ]

    Makes-await_job :
        (backup : GameServerBackup) (cfg : BackupConfig) (kind name : String)
        → Makes P (await_job api backup cfg kind name)
    unfolding await_job
    Makes-await_job backup cfg kind name =
        search (footprint, Makes-reading, permit, Makes-start_job, Makes-remove_backup_finalizer)
          depth 9

    Makes-secure_target :
        (namespace : String) (backup : GameServerBackup) (kind name : String)
        → Makes P (secure_target api namespace backup kind name)
    unfolding secure_target
    Makes-secure_target namespace backup kind name =
        search
          (
            footprint, Makes-storage, Makes-resolve_storage, Makes-remove_backup_finalizer,
            Makes-await_job,
          )
          depth 9

    Makes-finalize_backup :
        (namespace : String) (backup : GameServerBackup)
        → Makes P (finalize_backup api namespace backup)
    unfolding finalize_backup
    Makes-finalize_backup namespace backup =
        search (footprint, permit, Makes-remove_backup_finalizer, Makes-secure_target) depth 9

    pub Makes-reconcile_backup :
        (namespace : String) (key : Key) → Makes P (reconcile_backup api namespace key)
    unfolding reconcile_backup
    Makes-reconcile_backup namespace key =
        search (footprint, permit, Makes-finalize_backup, Makes-reconcile_backup_active) depth 9
