-- ===== src/Tests/Backups.antt =====
-- The theorems on the backup controller, at a concrete backup and server.
use gobehost_operator.Prelude.{ℕ, ◌≡◌, refl, ◌⊎◌, true, [], ◌∷◌, Option, none, some, get}
use gobehost_operator.Kube.{Key, Job}
use gobehost_operator.Api.{game_server_backup_finalizer, BackupStorageSpec, GameServerBackup}
use gobehost_operator.Cluster.{Api, Call, Log, ok, count_calls}
use gobehost_operator.Reconciler.{BackupConfig, resolve_config, build_backup_on_delete_job}
use gobehost_operator.Backup.{
  no_config, job_end, resolve_storage, has_ended, delete_job_key, reconcile_backup,
}
use gobehost_operator.Backup.Securing.{Targets, Secures}
use gobehost_operator.Backup.LastCopy.{is_update_backup, last_copy_waits}
use gobehost_operator.Tests.Samples.{meta_named, server_with}

abbrev pub backup_with : Option BackupStorageSpec → GameServerBackup
backup_with place = record {
  meta = meta_named "nightly";
  spec = record {
    target_ref = record { kind = "GameServer"; name = "lobby-gs" };
    schedule = "0 3 * * *";
    retention = none;
    storage = place;
    include_metadata = none;
    backup_on_delete = none;
  };
  status = record {
    last_backup_time = none;
    last_backup_status = "";
    next_backup_time = none;
    observed_generation = 0;
    conditions = [];
  };
}

-- A server that has the platform's configuration, without entries.
abbrev pub configured : Api
configured = record (server_with []) { get_config_map = λ log key. ok [] }

abbrev pub platform : BackupConfig
platform = record no_config {
  endpoint = get [] "endpoint";
  bucket = get [] "bucket";
  path = get [] "path";
  secret_name = get [] "secretName";
}

abbrev job_at : ℕ → Job
job_at t =
    let job =
      build_backup_on_delete_job (backup_with none) no_config "GameServer" "lobby-gs"
        "data-lobby-gs-0" in
    record job { meta = record (job.meta) { creation_timestamp = t } }

abbrev private_storage : BackupStorageSpec
private_storage = record { endpoint = ""; bucket = ""; path = ""; secret_ref = some "keys" }

abbrev unlocked : GameServerBackup
unlocked = backup_with (some private_storage)

abbrev held_backup : GameServerBackup
held_backup = record (backup_with none) {
  meta = record (meta_named "nightly") { finalizers = game_server_backup_finalizer ∷ [] };
}

-- A backup that is being deleted, and the log after a pass found it.
abbrev pub leaving : GameServerBackup
leaving = record held_backup { meta = record (held_backup.meta) { deletion_timestamp = some 5 } }

abbrev pub nightly_key : Key
nightly_key = record { namespace = "games"; name = "nightly" }

abbrev pub leaving_found : Log
leaving_found = Call.get_backup nightly_key ∷ []

abbrev pub serving : Api
serving = record configured { get_backup = λ log key. ok leaving }

pub leaving-Secures : Secures serving nightly_key leaving [] "GameServer" "lobby-gs" leaving_found
leaving-Secures = record {
  found = refl;
  deleted = refl;
  wanted = refl;
  target = Targets.named refl;
}

last_copy_waits_example :
    (count_calls is_update_backup (reconcile_backup serving "system" nightly_key []).1 ≡ 0)
    ⊎ ((job : Job) × (serving.get_job
            (resolve_storage serving "system" leaving leaving_found).1
            (delete_job_key leaving)
          ≡ ok job)
        × (has_ended (job_end job.conditions) ≡ true))
unfolding resolve_storage
last_copy_waits_example =
    last_copy_waits serving "system" nightly_key leaving (resolve_config leaving platform)
      "GameServer" "lobby-gs" [] leaving_found leaving-Secures refl
