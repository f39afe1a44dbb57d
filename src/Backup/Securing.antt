-- ===== src/Backup/Securing.antt =====
-- The passes over a backup that make the last copy: from Reconcile through finalize to the target.
use gobehost_operator.Prelude.{◌≡◌, refl, true, false, String, ◌∷◌, ◌==◌}
use gobehost_operator.Kube.{Key}
use gobehost_operator.Api.{GameServerBackup, GameServerFleet}
use gobehost_operator.Cluster.{ok, Call, Log, Api, is_some}
use gobehost_operator.Backup.Finalize.{wants_last_backup, secure_target, finalize_backup}
use gobehost_operator.Backup.Control.{reconcile_backup}

abbrev pub fleet_key : GameServerBackup → Key
fleet_key backup = record { namespace = backup.meta.namespace; name = backup.spec.target_ref.name }

-- The target of a backup, with the log after it was found: what the backup names, if that is not a
-- fleet, or the current GameServer of the fleet, or the fleet itself where it has none.
pub data Targets (api : Api) (backup : GameServerBackup) (log : Log)
    : String → String → Log → Type 0 where
  named :
      (backup.spec.target_ref.kind == "GameServerFleet") ≡ false
      → Targets api backup log backup.spec.target_ref.kind backup.spec.target_ref.name log
  of_fleet :
      (fleet : GameServerFleet)
      → (backup.spec.target_ref.kind == "GameServerFleet") ≡ true
      → api.get_fleet log (fleet_key backup) ≡ ok fleet
      → (fleet.status.current_game_server == "") ≡ false
      → Targets api backup log "GameServer" fleet.status.current_game_server
          (Call.get_fleet (fleet_key backup) ∷ log)
  fleet_alone :
      (fleet : GameServerFleet)
      → (backup.spec.target_ref.kind == "GameServerFleet") ≡ true
      → api.get_fleet log (fleet_key backup) ≡ ok fleet
      → (fleet.status.current_game_server == "") ≡ true
      → Targets api backup log backup.spec.target_ref.kind backup.spec.target_ref.name
          (Call.get_fleet (fleet_key backup) ∷ log)

-- A pass finds a backup that is being deleted, wants a last copy, and has this target.
pub record Secures (api : Api) (key : Key) (backup : GameServerBackup) (log : Log)
    (kind name : String) (before : Log) : Type 0 where
  pub found : api.get_backup log key ≡ ok backup
  pub deleted : is_some backup.meta.deletion_timestamp ≡ true
  pub wanted : wants_last_backup backup.spec.backup_on_delete ≡ true
  pub target : Targets api backup (Call.get_backup key ∷ log) kind name before

finalize_backup_reaches :
    (api : Api) (namespace : String) (backup : GameServerBackup) (log : Log) (kind name : String)
    (before : Log)
    → wants_last_backup backup.spec.backup_on_delete ≡ true
    → Targets api backup log kind name before
    → finalize_backup api namespace backup log ≡ secure_target api namespace backup kind name before
unfolding finalize_backup
finalize_backup_reaches api namespace backup log _ _ _ w (named other) = rw (w, other) refl
finalize_backup_reaches api namespace backup log _ _ _ w (of_fleet fleet is found current) =
    rw (w, is, found, current) refl
finalize_backup_reaches api namespace backup log _ _ _ w (fleet_alone fleet is found current) =
    rw (w, is, found, current) refl

pub reconcile_backup_reaches :
    (api : Api) (namespace : String) (key : Key) (backup : GameServerBackup) (log : Log)
    (kind name : String) (before : Log)
    → Secures api key backup log kind name before
    → reconcile_backup api namespace key log ≡ secure_target api namespace backup kind name before
unfolding reconcile_backup
reconcile_backup_reaches api namespace key backup log kind name before s =
    rw (s.found, s.deleted)
      (finalize_backup_reaches api namespace backup (Call.get_backup key ∷ log) kind name before
        s.wanted s.target)
