-- ===== src/Api/BackupTypes.antt =====
-- api/v1alpha1/gameserverbackup_types.go
use gobehost_operator.Prelude.{ℕ, String, List, Option, Bool}
use gobehost_operator.Prelude.Int.{ℤ}
use gobehost_operator.Kube.{Time, ObjectMeta, Condition}

abbrev pub game_server_backup_finalizer : String
game_server_backup_finalizer = "games.gobehost.com/backup-finalizer"

abbrev pub backup_ready : String
backup_ready = "Ready"

abbrev pub backup_succeeded : String
backup_succeeded = "LastBackupSucceeded"

abbrev pub backup_cron_job_created : String
backup_cron_job_created = "CronJobCreated"

abbrev pub backup_target_not_found : String
backup_target_not_found = "TargetNotFound"

abbrev pub backup_storage_missing : String
backup_storage_missing = "StorageConfigMissing"

abbrev pub backup_cron_job_failed : String
backup_cron_job_failed = "CronJobFailed"

abbrev pub backup_pvc_not_ready : String
backup_pvc_not_ready = "PVCNotReady"

abbrev pub backup_invalid_creds : String
backup_invalid_creds = "InvalidCredentials"

pub record BackupStorageSpec : Type 0 where
  pub endpoint : String
  pub bucket : String
  pub path : String
  -- secretRef.name
  pub secret_ref : Option String

pub record TargetReference : Type 0 where
  pub kind : String
  pub name : String

pub record GameServerBackupSpec : Type 0 where
  pub target_ref : TargetReference
  pub schedule : String
  pub retention : Option ℤ
  pub storage : Option BackupStorageSpec
  pub include_metadata : Option Bool
  pub backup_on_delete : Option Bool

pub record GameServerBackupStatus : Type 0 where
  pub last_backup_time : Option Time
  pub last_backup_status : String
  pub next_backup_time : Option Time
  pub observed_generation : ℕ
  pub conditions : List Condition

pub record GameServerBackup : Type 0 where
  pub meta : ObjectMeta
  pub spec : GameServerBackupSpec
  pub status : GameServerBackupStatus
