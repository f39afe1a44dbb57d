-- ===== src/Access/Isolation/BackupPasses.antt =====
-- The namespaces of the calls of a whole pass over a backup.
use gobehost_operator.Prelude.{◌≡◌, ◌∙◌, String, Option-cases, inl, inr}
use gobehost_operator.Kube.{Key}
use gobehost_operator.Cluster.{Api}
use gobehost_operator.Cluster.Footprint.{Makes, footprint}
use gobehost_operator.Api.{GameServerBackup}
use gobehost_operator.Reconciler.{BackupConfig, build_backup_on_delete_job, get_pvc_name}
use gobehost_operator.Backup.{
  start_job, await_job, secure_target, finalize_backup, with_target, reconcile_backup_active,
  reconcile_backup,
}
use gobehost_operator.Backup.Answers.{Makes-reading, Makes-target}
use gobehost_operator.Access.Isolation.{Within, Confines}
use gobehost_operator.Access.Isolation.Rules.{then_get_backup}
use gobehost_operator.Access.Isolation.BackupCalls.{
  then_storage, Within-note, Within-resolve_target, Within-resolve_storage,
  Within-remove_backup_finalizer, Within-with_storage, resolve_storage-StorageIn,
}

module _ {api : Api} (confines : Confines api) {system ns : String} (backup : GameServerBackup)
    (h : backup.meta.namespace ≡ ns) where
  Within-with_target :
      (kind name : String) → Makes (Within system ns) (with_target api system backup kind name)
  unfolding with_target
  Within-with_target kind name =
      let resolved = resolve_storage-StorageIn confines backup h system in
      search
        (
          then_storage,
          footprint,
          resolved,
          Within-resolve_storage confines backup h,
          Within-note confines,
          Within-with_storage confines backup h,
        )
        depth 9

  Within-reconcile_backup_active :
      Makes (Within system ns) (reconcile_backup_active api system backup)
  unfolding reconcile_backup_active
  Within-reconcile_backup_active =
      search (footprint, Makes-target, Within-resolve_target confines backup h, Within-with_target)
        depth 9

  Within-start_job :
      (cfg : BackupConfig) (kind name : String)
      → Makes (Within system ns) (start_job api backup cfg kind name)
  unfolding start_job build_backup_on_delete_job
  Within-start_job cfg kind name =
      let job = build_backup_on_delete_job backup cfg kind name (get_pvc_name "GameServer" name) in
      elim (Option-cases (api.set_controller_reference backup.meta job.meta)) [
        | inl e ↦ rw (e, start_job) (search (footprint))
        | inr (meta, e) ↦
            let named : meta.namespace ≡ ns = confines.controlled backup.meta job.meta meta e ∙ h in
            rw (e, start_job) (search (footprint, named))
      ]

  Within-await_job :
      (cfg : BackupConfig) (kind name : String)
      → Makes (Within system ns) (await_job api backup cfg kind name)
  unfolding await_job
  Within-await_job cfg kind name =
      search
        (
          footprint,
          Makes-reading,
          Within-start_job,
          Within-remove_backup_finalizer confines backup h,
        )
        depth 9

  Within-secure_target :
      (kind name : String) → Makes (Within system ns) (secure_target api system backup kind name)
  unfolding secure_target
  Within-secure_target kind name =
      let resolved = resolve_storage-StorageIn confines backup h system in
      search
        (
          then_storage,
          footprint,
          resolved,
          Within-resolve_storage confines backup h,
          Within-remove_backup_finalizer confines,
          Within-await_job,
        )
        depth 9

  Within-finalize_backup : Makes (Within system ns) (finalize_backup api system backup)
  unfolding finalize_backup
  Within-finalize_backup =
      search (footprint, Within-remove_backup_finalizer confines backup h, Within-secure_target)
        depth 9

module _ {api : Api} (confines : Confines api) {system ns : String} where
  pub Within-reconcile_backup :
      (key : Key) → key.namespace ≡ ns → Makes (Within system ns) (reconcile_backup api system key)
  unfolding reconcile_backup
  Within-reconcile_backup key h =
      search
        (
          then_get_backup confines,
          footprint,
          Within-finalize_backup confines,
          Within-reconcile_backup_active confines,
        )
        depth 9
