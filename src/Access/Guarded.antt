-- ===== src/Access/Guarded.antt =====
-- No child without a finalizer: what the steps of the three controllers do not create.
pub mod Passes
use gobehost_operator.Prelude.{
  ℕ, ◌≡◌, refl, ◌||◌, not, Bool, true, false, String, List, [], ◌∷◌, Option, none, some,
  Option-cases, Bool-cases, inl, inr, arith, ◌∙◌,
}
use gobehost_operator.Kube.{Key, StatefulSet}
use gobehost_operator.Api.{stopping, GameServer, GameServerFleet, GameServerBackup}
use gobehost_operator.Adapter.{Registry}
use gobehost_operator.Cluster.{ok, Call, Log, Api, M, is_some, count_calls}
use gobehost_operator.Cluster.Footprint.{Makes, Makes-if, Extends-count_calls, footprint}
use gobehost_operator.Reconciler.{BackupConfig, build_backup_on_delete_job, get_pvc_name, set_phase}
use gobehost_operator.Fleet.{
  LoopEnd, stop, still_exists, delete_then, remove_server, remove_servers, release_fleet,
  release_if_empty, drop_service, list_owned, finish_loop, finalize, reconcile_fleet,
  has_fleet_finalizer, reconcile,
}
use gobehost_operator.Server.{
  has_finalizer, add_finalizer, remove_finalizer, await_scale_down, scale_down, finalize_server,
  reconcile_found, reconcile_server,
}
use gobehost_operator.Backup.{
  note, check_secret, resolve_storage, has_backup_finalizer, remove_backup_finalizer, start_job,
  await_job, secure_target, finalize_backup, reconcile_backup,
}
use gobehost_operator.Backup.Answers.{Makes-reading, Makes-storage}

-- A call that creates a lasting child, or keeps one in step.
abbrev pub is_child : Call → ℕ
is_child (Call.create_server _) = 1
is_child (Call.apply_service _ _) = 1
is_child (Call.apply_stateful_set _ _) = 1
is_child (Call.create_cron_job _) = 1
is_child (Call.apply_cron_job _ _) = 1
is_child _ = 0

abbrev pub Childless : Call → Type 0
Childless c = is_child c ≡ 0

module _ (api : Api) where
  Childless-delete_then :
      (gs : GameServer) (rest : M LoopEnd)
      → Makes Childless rest
      → Makes Childless (delete_then api gs rest)
  unfolding delete_then
  Childless-delete_then gs rest hr = search (footprint)

  Childless-remove_server :
      (gs : GameServer) (rest : M LoopEnd)
      → Makes Childless rest
      → Makes Childless (remove_server api gs rest)
  unfolding remove_server
  Childless-remove_server gs rest hr = search (footprint, Childless-delete_then)

  Childless-remove_servers :
      (still : Bool) (items : List GameServer) → Makes Childless (remove_servers api still items)
  unfolding remove_servers
  Childless-remove_servers still [] = search (footprint)
  Childless-remove_servers still (gs ∷ items) =
      let rest = Childless-remove_servers true items in
      Makes-if (is_some gs.meta.deletion_timestamp) _ _ rest (Childless-remove_server gs _ rest)

  Childless-release_if_empty :
      (fleet : GameServerFleet) (items : List GameServer)
      → Makes Childless (release_if_empty api fleet items)
  unfolding release_if_empty release_fleet
  Childless-release_if_empty fleet [] = search (footprint)
  Childless-release_if_empty fleet (gs ∷ items) = search (footprint)

  Childless-drop_service :
      (fleet : GameServerFleet) (items : List GameServer)
      → Makes Childless (drop_service api fleet items)
  unfolding drop_service
  Childless-drop_service fleet items = search (footprint, Childless-release_if_empty)

  Childless-finish_loop :
      (fleet : GameServerFleet) (items : List GameServer) (end : LoopEnd)
      → Makes Childless (finish_loop api fleet items end)
  unfolding finish_loop
  Childless-finish_loop fleet items (stop outcome) = search (footprint)
  Childless-finish_loop fleet items (still_exists true) = search (footprint)
  Childless-finish_loop fleet items (still_exists false) = Childless-drop_service fleet items

  Childless-finalize : (fleet : GameServerFleet) → Makes Childless (finalize api fleet)
  unfolding finalize list_owned
  Childless-finalize fleet = search (footprint, Childless-remove_servers, Childless-finish_loop)

  pub Childless-reconcile_fleet :
      (fleet : GameServerFleet)
      → (is_some fleet.meta.deletion_timestamp || not (has_fleet_finalizer fleet)) ≡ true
      → Makes Childless (reconcile_fleet api fleet)
  unfolding reconcile_fleet
  Childless-reconcile_fleet fleet h = elim (Bool-cases (is_some fleet.meta.deletion_timestamp)) [
    | inl d ↦ rw (d, reconcile_fleet) (Childless-finalize fleet)
    | inr d ↦
        let bare : has_fleet_finalizer fleet ≡ false = ground arith in
        rw (d, bare, reconcile_fleet) (search (footprint))
  ]

  Childless-remove_finalizer : (gs : GameServer) → Makes Childless (remove_finalizer api gs)
  unfolding remove_finalizer
  Childless-remove_finalizer gs = search (footprint)

  Childless-scale_down :
      (gs : GameServer) (sts : StatefulSet) → Makes Childless (scale_down api gs sts)
  unfolding scale_down await_scale_down
  Childless-scale_down gs sts = search (footprint, Childless-remove_finalizer) depth 9

  Childless-finalize_server : (gs : GameServer) → Makes Childless (finalize_server api gs)
  unfolding finalize_server
  Childless-finalize_server gs =
      search (footprint, Childless-scale_down, Childless-remove_finalizer)

  pub Childless-reconcile_found :
      (registry : Registry) (gs : GameServer)
      → (is_some gs.meta.deletion_timestamp || not (has_finalizer gs)) ≡ true
      → Makes Childless (reconcile_found api registry gs)
  unfolding reconcile_found add_finalizer
  Childless-reconcile_found registry gs h = elim (Bool-cases (is_some gs.meta.deletion_timestamp)) [
    | inl d ↦ rw (d, reconcile_found) (Childless-finalize_server gs)
    | inr d ↦
        let bare : has_finalizer gs ≡ false = ground arith in
        rw (d, bare, reconcile_found) (search (footprint))
  ]

  Childless-check_secret :
      (backup : GameServerBackup) (platform : BackupConfig) (secret : Option String)
      → Makes Childless (check_secret api backup platform secret)
  unfolding check_secret note
  Childless-check_secret backup platform none = search (footprint)
  Childless-check_secret backup platform (some name) = search (footprint) depth 9

  Childless-resolve_storage :
      (system : String) (backup : GameServerBackup)
      → Makes Childless (resolve_storage api system backup)
  unfolding resolve_storage
  Childless-resolve_storage system backup = search (footprint, Childless-check_secret) depth 9

  Childless-remove_backup_finalizer :
      (backup : GameServerBackup) → Makes Childless (remove_backup_finalizer api backup)
  unfolding remove_backup_finalizer
  Childless-remove_backup_finalizer backup = search (footprint)

  Childless-start_job :
      (backup : GameServerBackup) (cfg : BackupConfig) (kind name : String)
      → Makes Childless (start_job api backup cfg kind name)
  unfolding start_job
  Childless-start_job backup cfg kind name =
      let job = build_backup_on_delete_job backup cfg kind name (get_pvc_name "GameServer" name) in
      elim (Option-cases (api.set_controller_reference backup.meta job.meta)) [
        | inl e ↦ rw (e, start_job) (search (footprint))
        | inr (meta, e) ↦ rw (e, start_job) (search (footprint))
      ]

  Childless-secure_target :
      (system : String) (backup : GameServerBackup) (kind name : String)
      → Makes Childless (secure_target api system backup kind name)
  unfolding secure_target await_job
  Childless-secure_target system backup kind name =
      search
        (
          footprint, Makes-storage, Makes-reading, Childless-resolve_storage, Childless-start_job,
          Childless-remove_backup_finalizer,
        )
        depth 9

  pub Childless-finalize_backup :
      (system : String) (backup : GameServerBackup)
      → Makes Childless (finalize_backup api system backup)
  unfolding finalize_backup
  Childless-finalize_backup system backup =
      search (footprint, Childless-remove_backup_finalizer, Childless-secure_target) depth 9
