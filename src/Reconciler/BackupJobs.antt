-- ===== src/Reconciler/BackupJobs.antt =====
-- internal/reconciler/backup.go
use gobehost_operator.Prelude.{
  Bool, true, false, not, String, ◌<>◌, List, [], ◌∷◌, Option, none, some, StringMap, ◌==◌,
  if◌then◌else◌, itoa,
}
use gobehost_operator.Prelude.Int.{ℤ, pos}
use gobehost_operator.Kube.{no_meta, secret_key_ref, EnvVar, PodSpec, Job, CronJob}
use gobehost_operator.Api.{BackupStorageSpec, GameServerBackup}

pub record BackupConfig : Type 0 where
  pub endpoint : String
  pub bucket : String
  pub path : String
  pub secret_name : String
  pub secret_namespace : String

-- `if v != "" { x = v }`
abbrev override_text : String → String → String
override_text x v = if not (v == "") then v else x

abbrev pub override_secret : String → Option String → String
override_secret x none = x
override_secret x (some name) = override_text x name

apply_storage : BackupConfig → Option BackupStorageSpec → BackupConfig
apply_storage cfg none = cfg
apply_storage cfg (some storage) = record cfg {
  endpoint = override_text cfg.endpoint storage.endpoint;
  bucket = override_text cfg.bucket storage.bucket;
  path = override_text cfg.path storage.path;
  secret_name = override_secret cfg.secret_name storage.secret_ref;
}

unfoldable pub resolve_config : GameServerBackup → BackupConfig → BackupConfig
unfolding apply_storage
resolve_config backup platform =
    let cfg = apply_storage platform backup.spec.storage in
    record cfg {
      path =
          if cfg.path == ""
          then backup.meta.namespace <> ("/" <> backup.spec.target_ref.name)
          else cfg.path;
      secret_namespace = backup.meta.namespace;
    }

abbrev pub rclone_command : String
rclone_command =
    "/usr/local/bin/rclone copy /data \"s3_backup:$BACKUP_BUCKET/$BACKUP_PATH/$(date -u +%Y-%m-%dT%H-%M-%SZ)/\""

-- fmtInt32
unfoldable pub fmt_int32 : ℤ → String
fmt_int32 v = itoa v

-- fmtBool
unfoldable pub fmt_bool : Bool → String
fmt_bool true = "true"
fmt_bool false = "false"

abbrev plain : String → String → EnvVar
plain name value = record { name = name; value = value; value_from = none }

abbrev from_secret : String → String → String → EnvVar
from_secret name secret key = record {
  name = name;
  value = "";
  value_from = some (secret_key_ref secret key);
}

-- `x := d; if p != nil { x = *p }`
abbrev pub deref_or {ℓ} : {A : Type ℓ} → Option A → A → A
deref_or none d = d
deref_or (some v) d = v

unfoldable pub build_backup_env : GameServerBackup → BackupConfig → List EnvVar
unfolding fmt_int32 fmt_bool
build_backup_env backup cfg =
    plain "RCLONE_CONFIG_S3_BACKUP_TYPE" "s3"
    ∷ plain "RCLONE_CONFIG_S3_BACKUP_PROVIDER" "Other"
    ∷ plain "RCLONE_CONFIG_S3_BACKUP_ENDPOINT" cfg.endpoint
    ∷ from_secret "RCLONE_CONFIG_S3_BACKUP_ACCESS_KEY_ID" cfg.secret_name "S3_ACCESS_KEY"
    ∷ from_secret "RCLONE_CONFIG_S3_BACKUP_SECRET_ACCESS_KEY" cfg.secret_name "S3_SECRET_KEY"
    ∷ plain "BACKUP_PATH" cfg.path
    ∷ plain "BACKUP_BUCKET" cfg.bucket
    ∷ plain "BACKUP_RETENTION" (fmt_int32 (deref_or backup.spec.retention (pos 5)))
    ∷ plain "INCLUDE_METADATA" (fmt_bool (deref_or backup.spec.include_metadata true))
    ∷ []

unfoldable pub build_backup_pod : List EnvVar → String → PodSpec
build_backup_pod env pvc_name = record {
  termination_grace_period_seconds = none;
  containers =
      record {
        name = "backup";
        image = "rclone/rclone:latest";
        image_pull_policy = "";
        command = "/bin/sh" ∷ "-c" ∷ [];
        args = rclone_command ∷ [];
        env = env;
        env_from = [];
        ports = [];
        volume_mounts = record { name = "data"; mount_path = "/data"; read_only = true } ∷ [];
        resources = "";
        security_context = none;
        readiness_probe = none;
        liveness_probe = none;
      }
      ∷ [];
  restart_policy = "OnFailure";
  volumes = record { name = "data"; claim_name = pvc_name; read_only = true } ∷ [];
  security_context = none;
  node_selector = [];
  affinity = none;
  tolerations = [];
}

unfoldable pub backup_labels : GameServerBackup → StringMap
backup_labels backup =
    ("app.kubernetes.io/name", "gameserverbackup")
    ∷ ("app.kubernetes.io/instance", backup.meta.name)
    ∷ ("app.kubernetes.io/managed-by", "gobehost-operator")
    ∷ ("games.gobehost.com/backup", backup.meta.name)
    ∷ []

-- The source's parameters `targetKind` and `targetName` are read by neither builder.
unfoldable pub build_cron_job : GameServerBackup → BackupConfig → String → String → String → CronJob
unfolding build_backup_env build_backup_pod backup_labels
build_cron_job backup cfg target_kind target_name pvc_name =
    let labels = backup_labels backup in
    record {
      meta = record no_meta {
        name = backup.meta.name <> "-backup";
        namespace = backup.meta.namespace;
        labels = labels;
      };
      schedule = backup.spec.schedule;
      concurrency_policy = "Replace";
      successful_jobs_history_limit = some 3;
      failed_jobs_history_limit = some 3;
      job_labels = labels;
      job_template = record {
        labels = labels;
        spec = build_backup_pod (build_backup_env backup cfg) pvc_name;
      };
    }

unfoldable pub build_backup_on_delete_job :
    GameServerBackup → BackupConfig → String → String → String → Job
unfolding build_backup_env build_backup_pod backup_labels
build_backup_on_delete_job backup cfg target_kind target_name pvc_name =
    let labels = backup_labels backup in
    record {
      meta = record no_meta {
        name = backup.meta.name <> "-backup-on-delete";
        namespace = backup.meta.namespace;
        labels = labels;
      };
      template = record {
        labels = labels;
        spec = build_backup_pod (build_backup_env backup cfg) pvc_name;
      };
      conditions = [];
      completion_time = none;
    }

unfoldable pub get_pvc_name : String → String → String
get_pvc_name target_kind target_name =
    if target_kind == "GameServer" then "data-" <> (target_name <> "-0") else ""
