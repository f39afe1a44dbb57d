-- ===== src/Backup/LastCopy.antt =====
-- What holds a backup that is being deleted.
use gobehost_operator.Prelude.{
  ℕ, ◌≡◌, refl, ◌∙◌, ◌⊎◌, inl, inr, true, false, String, ◌<>◌, ◌∷◌, Option, none, some, arith, ◌==◌,
  eq_iff, Bool-cases, text_cases,
}
use gobehost_operator.Kube.{Key, Job}
use gobehost_operator.Api.{GameServerBackup}
use gobehost_operator.Cluster.{
  not_found, conflict, other_error, ok, Call, Log, Api, Response-cases, is_some,
}
use gobehost_operator.Cluster.{count_calls}
use gobehost_operator.Reconciler.{BackupConfig, get_pvc_name}
use text.Mathlib.TextLemmas.{append-eq-nil_iff}
use gobehost_operator.Backup.Values.{storage, no_config, platform_config, secret_of, job_end}
use gobehost_operator.Backup.Resolve.{note, check_secret, resolve_storage}
use gobehost_operator.Backup.Finalize.{has_ended, delete_job_key, await_job, secure_target}
use gobehost_operator.Backup.Control.{reconcile_backup}
use gobehost_operator.Backup.Securing.{Targets, Secures, reconcile_backup_reaches}

abbrev pub is_update_backup : Call → ℕ
is_update_backup (Call.update_backup _) = 1
is_update_backup _ = 0

check_secret-is_update_backup :
    (api : Api) (backup : GameServerBackup) (platform : BackupConfig) (secret : Option String)
    (log : Log)
    → count_calls is_update_backup (check_secret api backup platform secret log).1
      ≡ count_calls is_update_backup log
unfolding check_secret note
check_secret-is_update_backup api backup platform none log = refl
check_secret-is_update_backup api backup platform (some name) log = ground arith

pub resolve_storage-is_update_backup :
    (api : Api) (namespace : String) (backup : GameServerBackup) (log : Log)
    → count_calls is_update_backup (resolve_storage api namespace backup log).1
      ≡ count_calls is_update_backup log
unfolding resolve_storage
resolve_storage-is_update_backup api namespace backup log =
    let key : Key = record { namespace = namespace; name = "gobehost-backup-config" } in
    elim (Response-cases (api.get_config_map log key)) [
      | inl (entries, h) ↦ rw h (
          check_secret-is_update_backup api backup (platform_config entries)
            (secret_of backup.spec.storage) (Call.get_config_map key ∷ log)
          ∙ ground arith)
      | inr (not_found, h) ↦ rw h (elim (Bool-cases (is_some backup.spec.storage)) [
        | inl e ↦ rw e (
            check_secret-is_update_backup api backup no_config (secret_of backup.spec.storage)
              (Call.get_config_map key ∷ log)
            ∙ ground arith)
        | inr e ↦ rw e (ground arith)
      ])
      | inr (conflict, h) ↦ rw h (ground arith)
      | inr (other_error, h) ↦ rw h (ground arith)
    ]

await_job_waits :
    (api : Api) (backup : GameServerBackup) (cfg : BackupConfig) (kind name : String) (log : Log)
    → (count_calls is_update_backup (await_job api backup cfg kind name log).1
        ≡ count_calls is_update_backup log)
      ⊎ ((job : Job) × (api.get_job log (delete_job_key backup) ≡ ok job)
          × (has_ended (job_end job.conditions) ≡ true))
unfolding await_job
await_job_waits api backup cfg kind name log =
    elim (Response-cases (api.get_job log (delete_job_key backup))) [
      | inr (not_found, h) ↦ inl (rw (h, await_job) (ground arith))
      | inr (conflict, h) ↦ inl (rw (h, await_job) (ground arith))
      | inr (other_error, h) ↦ inl (rw (h, await_job) (ground arith))
      | inl (job, h) ↦ elim (Bool-cases (has_ended (job_end job.conditions))) [
        | inl e ↦ inr (job, h, e)
        | inr e ↦ inl (rw (h, e) (ground arith))
      ]
    ]

pub claim_named : (name : String) → (get_pvc_name "GameServer" name == "") ≡ false
unfolding get_pvc_name
claim_named name = elim (text_cases ("data-" <> (name <> "-0")) "") [
  | inl (e, _) ↦ absurd (ground (arith, (append-eq-nil_iff.0 e).0, eq_iff "data-" ""))
  | inr (_, e) ↦ e
]

-- From resolveStorageConfig on.
pub secure_target_waits :
    (api : Api) (namespace : String) (backup : GameServerBackup) (cfg : BackupConfig)
    (kind name : String) (log : Log)
    → (resolve_storage api namespace backup log).0 ≡ storage cfg
    → (count_calls is_update_backup (secure_target api namespace backup kind name log).1
        ≡ count_calls is_update_backup log)
      ⊎ ((job : Job) × (api.get_job
              (resolve_storage api namespace backup log).1
              (delete_job_key backup)
            ≡ ok job)
          × (has_ended (job_end job.conditions) ≡ true))
unfolding secure_target
secure_target_waits api namespace backup cfg kind name log h =
    rw (h, claim_named name)
      (elim (await_job_waits api backup cfg kind name
        (resolve_storage api namespace backup log).1) [
          | inl w ↦ inl (w ∙ resolve_storage-is_update_backup api namespace backup log)
          | inr w ↦ inr w
        ])

Targets-is_update_backup :
    (api : Api) (backup : GameServerBackup) (log : Log) (kind name : String) (before : Log)
    → Targets api backup log kind name before
    → count_calls is_update_backup before ≡ count_calls is_update_backup log
Targets-is_update_backup api backup log _ _ _ (Targets.named other) = refl
Targets-is_update_backup api backup log _ _ _ (Targets.of_fleet fleet is found current) =
    omega arith
Targets-is_update_backup api backup log _ _ _ (Targets.fleet_alone fleet is found current) =
    omega arith

pub Secures-is_update_backup :
    (api : Api) (key : Key) (backup : GameServerBackup) (log : Log) (kind name : String)
    (before : Log)
    → Secures api key backup log kind name before
    → count_calls is_update_backup before ≡ count_calls is_update_backup log
Secures-is_update_backup api key backup log kind name before s =
    Targets-is_update_backup api backup (Call.get_backup key ∷ log) kind name before s.target
    ∙ omega arith

-- If a backup is being deleted, wants a last copy and names what is no fleet or a fleet that is found,
-- and the storage configuration is resolved, a pass over it removes its finalizer only after the Job
-- that makes the last copy was read, with a condition that it is complete or has failed.
pub last_copy_waits :
    (api : Api) (namespace : String) (key : Key) (backup : GameServerBackup) (cfg : BackupConfig)
    (kind name : String) (log before : Log)
    → Secures api key backup log kind name before
    → (resolve_storage api namespace backup before).0 ≡ storage cfg
    → (count_calls is_update_backup (reconcile_backup api namespace key log).1
        ≡ count_calls is_update_backup log)
      ⊎ ((job : Job) × (api.get_job
              (resolve_storage api namespace backup before).1
              (delete_job_key backup)
            ≡ ok job)
          × (has_ended (job_end job.conditions) ≡ true))
last_copy_waits api namespace key backup cfg kind name log before s h =
    rw (reconcile_backup_reaches api namespace key backup log kind name before s)
      (elim (secure_target_waits api namespace backup cfg kind name before h) [
        | inl w ↦ inl (w ∙ Secures-is_update_backup api key backup log kind name before s)
        | inr w ↦ inr w
      ])
