-- ===== src/Access/Isolation/BackupCalls.antt =====
-- The namespaces of the calls of the backup controller.
use gobehost_operator.Prelude.{
  ◌≡◌, refl, ◌∙◌, String, List, [], ◌∷◌, Option, none, some, Option-cases, inl, inr, Bool-cases,
}
use gobehost_operator.Kube.{Time, Key, Job, CronJob, condition_true, condition_false}
use gobehost_operator.Cluster.{
  ApiError, not_found, conflict, other_error, ok, err, Log, Api, Response, get_cron_job,
  Response-cases, is_some, M, pure, ◌>>=◌, done, requeue_after, now, update_backup_status,
  requeue_on_conflict,
}
use gobehost_operator.Cluster.Footprint.{Makes, Makes-known, footprint}
use gobehost_operator.Api.{GameServerBackup, backup_cron_job_created}
use gobehost_operator.Reconciler.{BackupConfig, build_cron_job, set_backup_condition, backup_labels}
use gobehost_operator.Backup.{
  Storage, storage, no_storage, storage_failed, noted, JobEnd, still_running, job_succeeded,
  job_broke, reflect_job, reflect_latest, note, resolve_target, check_secret, resolve_storage,
  check_pvc, update_job_status, remove_backup_finalizer, store_cron_job, reconcile_cron_job,
  report_ready, with_storage, backup_requeue_interval,
}
use gobehost_operator.Backup.Answers.{Makes-failure, Makes-claim}
use gobehost_operator.Access.Isolation.{Within, Confines}
use gobehost_operator.Access.Isolation.Rules.{then_get_cron_job}

reflect_job-meta :
    (t : Time) (backup : GameServerBackup) (completed : Option Time) (end : JobEnd)
    → (reflect_job t backup completed end).meta ≡ backup.meta
unfolding reflect_job set_backup_condition
reflect_job-meta t backup completed still_running = refl
reflect_job-meta t backup completed job_succeeded = refl
reflect_job-meta t backup completed (job_broke message) = refl

reflect_latest-meta :
    (t : Time) (backup : GameServerBackup) (jobs : List Job)
    → (reflect_latest t backup jobs).meta ≡ backup.meta
unfolding reflect_latest
reflect_latest-meta t backup [] = refl
reflect_latest-meta t backup (j ∷ jobs) = reflect_job-meta t backup _ _

-- The backup that a result holds is of the namespace.
abbrev pub StorageIn : String → Storage → Type 0
StorageIn ns (no_storage backup) = backup.meta.namespace ≡ ns
StorageIn ns _ = Unit

module _ {api : Api} (confines : Confines api) {ns : String} (backup : GameServerBackup)
    (h : backup.meta.namespace ≡ ns) where
  note-namespace :
      (reason message : String) (log : Log)
      → (note api backup reason message log).0.meta.namespace ≡ ns
  unfolding note noted set_backup_condition
  note-namespace reason message log =
      let sent = noted (api.now log) backup condition_false reason message in
      elim (Response-cases (api.update_backup_status log sent)) [
        | inl (stored, e) ↦ rw (e, note) (confines.stored_backup log sent stored e ∙ h)
        | inr (_, e) ↦ rw (e, note) h
      ]

  check_secret-StorageIn :
      (platform : BackupConfig) (secret : Option String) (log : Log)
      → StorageIn ns (check_secret api backup platform secret log).0
  unfolding check_secret
  check_secret-StorageIn platform none log = tt
  check_secret-StorageIn platform (some name) log =
      let key : Key = record { namespace = backup.meta.namespace; name = name } in
      elim (Response-cases (api.get_secret log key)) [
        | inl (_, e) ↦ rw (e, check_secret) tt
        | inr (not_found, e) ↦ rw (e, check_secret) (note-namespace _ _ _)
        | inr (conflict, e) ↦ rw (e, check_secret) tt
        | inr (other_error, e) ↦ rw (e, check_secret) tt
      ]

  pub resolve_storage-StorageIn :
      (system : String) (log : Log) → StorageIn ns (resolve_storage api system backup log).0
  unfolding resolve_storage
  resolve_storage-StorageIn system log =
      let key : Key = record { namespace = system; name = "gobehost-backup-config" } in
      elim (Response-cases (api.get_config_map log key)) [
        | inl (entries, e) ↦ rw (e, resolve_storage) (check_secret-StorageIn _ _ _)
        | inr (not_found, e) ↦ elim (Bool-cases (is_some backup.spec.storage)) [
          | inl s ↦ rw (e, s, resolve_storage) (check_secret-StorageIn _ _ _)
          | inr s ↦ rw (e, s, resolve_storage) h
        ]
        | inr (conflict, e) ↦ rw (e, resolve_storage) tt
        | inr (other_error, e) ↦ rw (e, resolve_storage) tt
      ]

  update_job_status-namespace :
      (log : Log) → (update_job_status api backup log).0.meta.namespace ≡ ns
  unfolding update_job_status
  update_job_status-namespace log =
      elim (Response-cases (api.list_jobs log backup.meta.namespace (backup_labels backup))) [
        | inl (jobs, e) ↦
            rw (e, update_job_status) (rw (reflect_latest-meta (api.now _) backup jobs) h)
        | inr (_, e) ↦ rw (e, update_job_status) h
      ]

module _ {B : Type 0} {system ns : String} where
  pub then_storage :
      (m : M Storage) (f : Storage → M B)
      → Makes (Within system ns) m
      → ((log : Log) → StorageIn ns (m log).0)
      → ((cfg : BackupConfig) → Makes (Within system ns) (f (storage cfg)))
      → ((b : GameServerBackup)
          → b.meta.namespace ≡ ns
          → Makes (Within system ns) (f (no_storage b)))
      → ((e : ApiError) → Makes (Within system ns) (f (storage_failed e)))
      → Makes (Within system ns) (m >>= f)
  then_storage m f hm told hs hn he = Makes-known (StorageIn ns) m f hm told cases
    where
      cases : (r : Storage) → StorageIn ns r → Makes (Within system ns) (f r)
      cases (storage cfg) q = hs cfg
      cases (no_storage b) q = hn b q
      cases (storage_failed e) q = he e

module _ {B : Type 0} {api : Api} (confines : Confines api) {system ns : String} where
  then_find_cron_job :
      (key : Key) (f : Response CronJob → M B)
      → key.namespace ≡ ns
      → ((cj : CronJob) → cj.meta.namespace ≡ ns → Makes (Within system ns) (f (ok cj)))
      → Makes (Within system ns) (f (err not_found))
      → Makes (Within system ns) (f (err conflict))
      → Makes (Within system ns) (f (err other_error))
      → Makes (Within system ns) (get_cron_job api key >>= f)
  then_find_cron_job key f h ha hn hc ho = then_get_cron_job confines key f h ha errors
    where
      errors : (e : ApiError) → Makes (Within system ns) (f (err e))
      errors not_found = hn
      errors conflict = hc
      errors other_error = ho

module _ {api : Api} (confines : Confines api) {system ns : String} (backup : GameServerBackup)
    (h : backup.meta.namespace ≡ ns) where
  pub Within-note :
      (reason message : String) → Makes (Within system ns) (note api backup reason message)
  unfolding note noted set_backup_condition
  Within-note reason message = search (footprint)

  pub Within-resolve_target : Makes (Within system ns) (resolve_target api backup)
  unfolding resolve_target
  Within-resolve_target = search (footprint, Within-note) depth 9

  Within-check_secret :
      (platform : BackupConfig) (secret : Option String)
      → Makes (Within system ns) (check_secret api backup platform secret)
  unfolding check_secret
  Within-check_secret platform none = search (footprint)
  Within-check_secret platform (some name) = search (footprint, Within-note) depth 9

  pub Within-resolve_storage : Makes (Within system ns) (resolve_storage api system backup)
  unfolding resolve_storage
  Within-resolve_storage = search (footprint, Within-check_secret) depth 9

  Within-check_pvc :
      (kind name : String) → Makes (Within system ns) (check_pvc api backup kind name)
  unfolding check_pvc
  Within-check_pvc kind name = search (footprint, Within-note) depth 9

  Within-update_job_status : Makes (Within system ns) (update_job_status api backup)
  unfolding update_job_status
  Within-update_job_status = search (footprint) depth 9

  pub Within-remove_backup_finalizer : Makes (Within system ns) (remove_backup_finalizer api backup)
  unfolding remove_backup_finalizer
  Within-remove_backup_finalizer = search (footprint)

  Within-store_cron_job :
      (cj : CronJob)
      → cj.meta.namespace ≡ ns
      → Makes (Within system ns) (store_cron_job api backup cj)
  unfolding store_cron_job
  Within-store_cron_job cj hc = search (then_find_cron_job confines, footprint, Within-note) depth 9

  Within-reconcile_cron_job :
      (cfg : BackupConfig) (kind name claim : String)
      → Makes (Within system ns) (reconcile_cron_job api backup cfg kind name claim)
  unfolding reconcile_cron_job build_cron_job
  Within-reconcile_cron_job cfg kind name claim =
      let cj = build_cron_job backup cfg kind name claim in
      elim (Option-cases (api.set_controller_reference backup.meta cj.meta)) [
        | inl e ↦ rw (e, reconcile_cron_job) (search (footprint))
        | inr (meta, e) ↦
            let named : meta.namespace ≡ ns = confines.controlled backup.meta cj.meta meta e ∙ h in
            rw (e, reconcile_cron_job) (Within-store_cron_job (record cj { meta = meta }) named)
      ]

  Within-report_ready : Makes (Within system ns) (report_ready api backup)
  unfolding report_ready noted set_backup_condition
  Within-report_ready =
      Makes-known (λ b. b.meta.namespace ≡ ns) (update_job_status api backup)
        (λ b. now api >>= λ t.
          update_backup_status api
            (noted t b condition_true backup_cron_job_created "CronJob created")
          >>= λ written. elim written [
            | err e ↦ pure (requeue_on_conflict e)
            | ok _ ↦ pure (done (requeue_after backup_requeue_interval))
          ])
        Within-update_job_status (update_job_status-namespace confines backup h)
        (λ b k. search (footprint))

  pub Within-with_storage :
      (kind name : String) (cfg : BackupConfig)
      → Makes (Within system ns) (with_storage api backup kind name cfg)
  unfolding with_storage
  Within-with_storage kind name cfg =
      search
        (
          footprint, Makes-claim, Makes-failure, Within-check_pvc, Within-reconcile_cron_job,
          Within-report_ready,
        )
        depth 9
