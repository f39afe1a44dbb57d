-- ===== src/Backup/Values.antt =====
-- internal/controller/gameserverbackup_controller.go: the functions that make no call.
use gobehost_operator.Prelude.{
  ℕ, Bool, true, false, String, List, [], ◌∷◌, Option, none, some, StringMap, ltb, if◌then◌else◌,
  get,
}
use gobehost_operator.Kube.{
  Time, ConditionStatus, condition_true, condition_false, JobConditionType, job_complete,
  job_failed, other_job_condition, JobCondition, Job,
}
use gobehost_operator.Api.{
  backup_ready, backup_succeeded, backup_cron_job_failed, BackupStorageSpec, GameServerBackup,
}
use gobehost_operator.Cluster.{ApiError}
use gobehost_operator.Reconciler.{BackupConfig, set_backup_condition}

-- backupRequeueInterval
abbrev pub backup_requeue_interval : ℕ
backup_requeue_interval = 30

-- The target of a backup; a target that is not there is reported in the status.
pub data Target : Type 0 where
  target : String → String → Target
  no_target : Target
  target_failed : ApiError → Target

-- `no_storage` is `nil, nil`, with the backup as it is then.
pub data Storage : Type 0 where
  storage : BackupConfig → Storage
  no_storage : GameServerBackup → Storage
  storage_failed : ApiError → Storage

-- What checkPVC returns: "" without error, the signal to requeue, or an error.
pub data ClaimCheck : Type 0 where
  claim_bound claim_missing : ClaimCheck
  claim_failed : ApiError → ClaimCheck

-- The status that reports why a backup is not ready, or that it is.
unfoldable pub noted :
    Time → GameServerBackup → ConditionStatus → String → String → GameServerBackup
unfolding set_backup_condition
noted t backup status reason message =
    let backup' = set_backup_condition t backup backup_ready status reason message in
    record backup' {
      status = record (backup'.status) { observed_generation = backup'.meta.generation };
    }

abbrev pub no_config : BackupConfig
no_config = record {
  endpoint = "";
  bucket = "";
  path = "";
  secret_name = "";
  secret_namespace = "";
}

unfoldable pub platform_config : StringMap → BackupConfig
unfolding get
platform_config entries = record {
  endpoint = get entries "endpoint";
  bucket = get entries "bucket";
  path = get entries "path";
  secret_name = get entries "secretName";
  secret_namespace = "";
}

abbrev pub secret_of : Option BackupStorageSpec → Option String
secret_of none = none
secret_of (some s) = s.secret_ref

-- The loop that keeps the job created last, from the one found so far.
unfoldable pub latest_from : Job → List Job → Job
latest_from best [] = best
latest_from best (j ∷ jobs) =
    latest_from (if ltb best.meta.creation_timestamp j.meta.creation_timestamp then j else best)
      jobs

abbrev pub is_condition_true : ConditionStatus → Bool
is_condition_true condition_true = true
is_condition_true _ = false

-- How a job's conditions say that it ended: the first that is Complete or Failed, and true.
pub data JobEnd : Type 0 where
  still_running job_succeeded : JobEnd
  job_broke : String → JobEnd

ended_by : JobConditionType → String → JobEnd → JobEnd
ended_by job_complete message rest = job_succeeded
ended_by job_failed message rest = job_broke message
ended_by (other_job_condition _) message rest = rest

unfoldable pub job_end : List JobCondition → JobEnd
unfolding ended_by
job_end [] = still_running
job_end (c ∷ cs) =
    let rest = job_end cs in
    if is_condition_true c.status then ended_by c.type c.message rest else rest

abbrev or_time : Option Time → Option Time → Option Time
or_time none old = old
or_time (some t) old = some t

-- The status after updateBackupJobStatus has looked at the latest job.
unfoldable pub reflect_job : Time → GameServerBackup → Option Time → JobEnd → GameServerBackup
unfolding set_backup_condition
reflect_job t backup completed still_running = backup
reflect_job t backup completed job_succeeded =
    let backup' =
      set_backup_condition t backup backup_succeeded condition_true "Succeeded"
        "Last backup job succeeded" in
    record backup' {
      status = record (backup'.status) {
        last_backup_status = "Success";
        last_backup_time = or_time completed backup'.status.last_backup_time;
      };
    }
reflect_job t backup completed (job_broke message) =
    let backup' =
      set_backup_condition t backup backup_succeeded condition_false backup_cron_job_failed
        message in
    record backup' { status = record (backup'.status) { last_backup_status = "Failed" } }

unfoldable pub reflect_latest : Time → GameServerBackup → List Job → GameServerBackup
unfolding reflect_job latest_from job_end
reflect_latest t backup [] = backup
reflect_latest t backup (j ∷ jobs) =
    let latest = latest_from j (j ∷ jobs) in
    reflect_job t backup latest.completion_time (job_end latest.conditions)
