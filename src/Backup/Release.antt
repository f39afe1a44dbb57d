-- ===== src/Backup/Release.antt =====
-- The deletion of a backup goes on where the API server does what it is asked.
use gobehost_operator.Prelude.{◌≡◌, true, false, String, ◌∷◌, some}
use gobehost_operator.Kube.{ObjectMeta, Job}
use gobehost_operator.Api.{GameServerBackup}
use gobehost_operator.Cluster.{
  not_found, ok, err, Call, Log, Api, Outcome, done, no_requeue, requeue_after,
}
use gobehost_operator.Reconciler.{BackupConfig, build_backup_on_delete_job, get_pvc_name}
use gobehost_operator.Backup.Values.{job_end}
use gobehost_operator.Backup.Finalize.{
  has_backup_finalizer, drop_backup_finalizer, has_ended, delete_job_key,
}

-- Backups can be updated, Jobs created and owned.
pub record Obeys (api : Api) : Type 0 where
  pub updates :
      (log : Log) (backup : GameServerBackup)
      → (backup' : GameServerBackup) × (api.update_backup log backup ≡ ok backup')
  pub creates : (log : Log) (job : Job) → (job' : Job) × (api.create_job log job ≡ ok job')
  pub owns :
      (owner child : ObjectMeta)
      → (meta : ObjectMeta) × (api.set_controller_reference owner child ≡ some meta)

-- The Job of the last copy, owned by the backup, as a pass sends it.
abbrev pub last_job : GameServerBackup → BackupConfig → String → String → ObjectMeta → Job
last_job backup cfg kind name meta =
    record (build_backup_on_delete_job backup cfg kind name (get_pvc_name "GameServer" name)) {
      meta = meta;
    }

-- The ends of a pass, by what was read of the Job: it is created, it runs on, or it has ended and
-- the backup is let go.
pub data Ends (api : Api) (backup : GameServerBackup) (cfg : BackupConfig) (kind name : String)
    (before : Log) (r : Outcome × Log) : Type 0 where
  starts :
      api.get_job before (delete_job_key backup) ≡ err not_found
      → r.0 ≡ done (requeue_after 5)
      → (meta : ObjectMeta) (earlier : Log)
      → r.1 ≡ Call.create_job (last_job backup cfg kind name meta) ∷ earlier
      → Ends api backup cfg kind name before r
  runs :
      (job : Job)
      → api.get_job before (delete_job_key backup) ≡ ok job
      → has_ended (job_end job.conditions) ≡ false
      → r.0 ≡ done (requeue_after 5)
      → Ends api backup cfg kind name before r
  released :
      (job : Job)
      → api.get_job before (delete_job_key backup) ≡ ok job
      → has_ended (job_end job.conditions) ≡ true
      → r.0 ≡ done no_requeue
      → (earlier : Log) → r.1 ≡ Call.update_backup (drop_backup_finalizer backup) ∷ earlier
      → has_backup_finalizer (drop_backup_finalizer backup) ≡ false
      → Ends api backup cfg kind name before r
