-- ===== src/Backup/Accepted.antt =====
-- When the status of a backup says that it is ready.
use gobehost_operator.Prelude.{ℕ, ◌≡◌, ◌⊎◌, String, ◌∷◌, Option, none, some, if◌then◌else◌}
use gobehost_operator.Kube.{ObjectMeta, Condition, CronJob, key_of}
use gobehost_operator.Api.{backup_ready, GameServerBackup}
use gobehost_operator.Cluster.{
  ApiError, ok, M, pure, ◌>>=◌, Outcome, done, failed_with, requeue_after, Call, Log, Api,
}
use gobehost_operator.Reconciler.{BackupConfig, build_cron_job, get_pvc_name}
use gobehost_operator.Reconciler.OneCondition.{find_condition}
use gobehost_operator.Backup.Values.{
  backup_requeue_interval, is_condition_true, ClaimCheck, claim_bound, claim_missing, claim_failed,
}
use gobehost_operator.Backup.Control.{mutate_cron_job, reconcile_cron_job, report_ready}

abbrev says_true : Option Condition → ℕ
says_true none = 0
says_true (some c) = if is_condition_true c.status then 1 else 0

-- A write of the status whose condition "Ready" is true.
abbrev pub is_ready_report : Call → ℕ
is_ready_report (Call.update_backup_status w) =
    says_true (find_condition backup_ready w.status.conditions)
is_ready_report _ = 0

abbrev Silent : Call → Type 0
Silent c = is_ready_report c ≡ 0

-- Asked after the calls of `log`, the API server took the CronJob: as a new one, or as an edit of the
-- one that it held.
abbrev pub Accepted : Api → Log → CronJob → Type 0
Accepted api log cj =
    let asked = Call.get_cron_job (key_of cj.meta) ∷ log in
    (stored : CronJob) × ((api.create_cron_job asked cj ≡ ok stored)
      ⊎ ((existing : CronJob) × (api.get_cron_job log (key_of cj.meta) ≡ ok existing)
          × (api.apply_cron_job asked existing (mutate_cron_job cj) ≡ ok stored)))

module _ (api : Api) (backup : GameServerBackup) where
  -- The CronJob of the backup, owned by it, was accepted.
  abbrev pub HasCronJob : Log → BackupConfig → String → String → Type 0
  HasCronJob log cfg kind name =
      let cj = build_cron_job backup cfg kind name (get_pvc_name "GameServer" name) in
      (meta : ObjectMeta) × (api.set_controller_reference backup.meta cj.meta ≡ some meta)
      × Accepted api log (record cj { meta = meta })

-- What follows the CronJob, and what follows the check of the claim.
abbrev after_cron_job : Api → GameServerBackup → Option ApiError → M Outcome
after_cron_job api backup none = report_ready api backup
after_cron_job api backup (some e) = pure (failed_with e)

abbrev after_claim :
    Api → GameServerBackup → String → String → BackupConfig → ClaimCheck → M Outcome
after_claim api backup kind name cfg claim_missing =
    pure (done (requeue_after backup_requeue_interval))
after_claim api backup kind name cfg (claim_failed e) = pure (failed_with e)
after_claim api backup kind name cfg claim_bound =
    reconcile_cron_job api backup cfg kind name (get_pvc_name "GameServer" name)
    >>= after_cron_job api backup
