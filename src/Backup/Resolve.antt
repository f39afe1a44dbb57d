-- ===== src/Backup/Resolve.antt =====
-- internal/controller/gameserverbackup_controller.go: resolving target, storage, claim and last job.
use gobehost_operator.Prelude.{not, String, Option, none, some, ◌==◌, if◌then◌else◌}
use gobehost_operator.Kube.{Key, condition_false}
use gobehost_operator.Api.{
  backup_target_not_found, backup_pvc_not_ready, backup_invalid_creds, GameServerBackup,
}
use gobehost_operator.Cluster.{
  ok, err, Api, M, pure, ◌>>=◌, ◌>>◌, now, get_server, get_fleet, get_pvc, get_secret,
  get_config_map, update_backup_status, list_jobs, is_not_found, is_some,
}
use gobehost_operator.Reconciler.{BackupConfig, resolve_config, backup_labels, get_pvc_name}
use gobehost_operator.Backup.Values.{
  Target, Storage, ClaimCheck, noted, no_config, platform_config, secret_of, reflect_latest, target,
  no_target, target_failed, storage, no_storage, storage_failed, claim_bound, claim_missing,
  claim_failed,
}

module _ (api : Api) where
  -- A report of the three lines that set the condition and write the status, whose error is ignored:
  -- the backup in memory afterwards.
  unfoldable pub note : GameServerBackup → String → String → M GameServerBackup
  note backup reason message = do
    t ← now api
    written ← update_backup_status api (noted t backup condition_false reason message)
    elim written [
      | ok backup' ↦ pure backup'
      | err _ ↦ pure (noted t backup condition_false reason message)
    ]

  abbrev missing_target : GameServerBackup → String → M Target
  missing_target backup message = do note backup backup_target_not_found message; pure no_target

  -- resolveTarget
  unfoldable pub resolve_target : GameServerBackup → M Target
  unfolding note
  resolve_target backup =
      let ref = backup.spec.target_ref in
      let key : Key = record { namespace = backup.meta.namespace; name = ref.name } in
      if ref.kind == "GameServerFleet"
      then (do
        found ← get_fleet api key
        elim found [
          | err e ↦
              if is_not_found e
              then missing_target backup "GameServerFleet not found"
              else pure (target_failed e)
          | ok fleet ↦
              if fleet.status.current_game_server == ""
              then missing_target backup "GameServerFleet has no current GameServer"
              else pure (target "GameServer" fleet.status.current_game_server)
        ])
      else (do
        found ← get_server api key
        elim found [
          | err e ↦
              if is_not_found e
              then missing_target backup "GameServer not found"
              else pure (target_failed e)
          | ok _ ↦ pure (target ref.kind ref.name)
        ])

  -- The end of resolveStorageConfig, from the reference to a Secret.
  unfoldable pub check_secret : GameServerBackup → BackupConfig → Option String → M Storage
  unfolding note resolve_config
  check_secret backup platform none = pure (storage (resolve_config backup platform))
  check_secret backup platform (some name) = do
    found ← get_secret api (record { namespace = backup.meta.namespace; name = name })
    elim found [
      | ok _ ↦ pure (storage (resolve_config backup platform))
      | err e ↦
          if is_not_found e
          then (do
            backup' ← note backup backup_invalid_creds "Referenced Secret not found"
            pure (no_storage backup'))
          else pure (storage_failed e)
    ]

  -- resolveStorageConfig
  unfoldable pub resolve_storage : String → GameServerBackup → M Storage
  unfolding check_secret platform_config
  resolve_storage config_namespace backup = do
    found ←
        get_config_map api
          (record { namespace = config_namespace; name = "gobehost-backup-config" })
    elim found [
      | ok entries ↦ check_secret backup (platform_config entries) (secret_of backup.spec.storage)
      | err e ↦
          if not (is_not_found e)
          then pure (storage_failed e)
          else if is_some backup.spec.storage
          then check_secret backup no_config (secret_of backup.spec.storage)
          else pure (no_storage backup)
    ]

  abbrev missing_claim : GameServerBackup → String → M ClaimCheck
  missing_claim backup message = do note backup backup_pvc_not_ready message; pure claim_missing

  -- checkPVC
  unfoldable pub check_pvc : GameServerBackup → String → String → M ClaimCheck
  unfolding note get_pvc_name
  check_pvc backup kind name =
      let pvc_name = get_pvc_name kind name in
      if pvc_name == "" then missing_claim backup "Cannot determine PVC name for target" else (do
        found ← get_pvc api (record { namespace = backup.meta.namespace; name = pvc_name })
        elim found [
          | err e ↦
              if is_not_found e then missing_claim backup "PVC not found" else pure (claim_failed e)
          | ok pvc ↦
              if pvc.is_bound then pure claim_bound else missing_claim backup "PVC is not bound"
        ])

  -- updateBackupJobStatus
  unfoldable pub update_job_status : GameServerBackup → M GameServerBackup
  unfolding reflect_latest backup_labels
  update_job_status backup = do
    found ← list_jobs api backup.meta.namespace (backup_labels backup)
    t ← now api
    elim found [ err _ ↦ pure backup | ok jobs ↦ pure (reflect_latest t backup jobs) ]
