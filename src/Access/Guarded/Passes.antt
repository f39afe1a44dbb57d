-- ===== src/Access/Guarded/Passes.antt =====
-- Whole passes over objects without a finalizer, or that are being deleted.
use gobehost_operator.Prelude.{
  ◌≡◌, refl, ◌||◌, not, true, false, String, ◌∷◌, Bool-cases, inl, inr, arith, ◌∙◌,
}
use gobehost_operator.Kube.{Key}
use gobehost_operator.Api.{GameServer, GameServerFleet, GameServerBackup}
use gobehost_operator.Adapter.{Registry}
use gobehost_operator.Cluster.{ok, Call, Log, Api, M, is_some, count_calls}
use gobehost_operator.Cluster.Footprint.{Makes, Extends-count_calls}
use gobehost_operator.Fleet.{reconcile_fleet, has_fleet_finalizer, reconcile}
use gobehost_operator.Server.{has_finalizer, reconcile_found, reconcile_server}
use gobehost_operator.Backup.{has_backup_finalizer, finalize_backup, reconcile_backup}
use gobehost_operator.Access.Guarded.{
  is_child, Childless, Childless-reconcile_fleet, Childless-reconcile_found,
  Childless-finalize_backup,
}

-- Of an action that follows a reading.
after_reading :
    {A : Type 0} (m : M A) (c : Call) (log : Log)
    → is_child c ≡ 0
    → Makes Childless m
    → count_calls is_child (m (c ∷ log)).1 ≡ count_calls is_child log
after_reading m c log h childless =
    Extends-count_calls is_child (c ∷ log) (m (c ∷ log)).1 (childless.at (c ∷ log))
    ∙ omega (arith, h)

module _ (api : Api) (key : Key) (log : Log) where
  fleet_guarded :
      (fleet : GameServerFleet)
      → api.get_fleet log key ≡ ok fleet
      → (is_some fleet.meta.deletion_timestamp || not (has_fleet_finalizer fleet)) ≡ true
      → count_calls is_child (reconcile api key log).1 ≡ count_calls is_child log
  unfolding reconcile
  fleet_guarded fleet found h =
      rw (found, reconcile)
        (after_reading (reconcile_fleet api fleet) (Call.get_fleet key) log refl
          (Childless-reconcile_fleet api fleet h))

  server_guarded :
      (registry : Registry) (gs : GameServer)
      → api.get_server log key ≡ ok gs
      → (is_some gs.meta.deletion_timestamp || not (has_finalizer gs)) ≡ true
      → count_calls is_child (reconcile_server api registry key log).1 ≡ count_calls is_child log
  unfolding reconcile_server
  server_guarded registry gs found h =
      rw (found, reconcile_server)
        (after_reading (reconcile_found api registry gs) (Call.get_server key) log refl
          (Childless-reconcile_found api registry gs h))

  backup_guarded :
      (system : String) (backup : GameServerBackup)
      → api.get_backup log key ≡ ok backup
      → (is_some backup.meta.deletion_timestamp || not (has_backup_finalizer backup)) ≡ true
      → count_calls is_child (reconcile_backup api system key log).1 ≡ count_calls is_child log
  unfolding reconcile_backup
  backup_guarded system backup found h =
      elim (Bool-cases (is_some backup.meta.deletion_timestamp)) [
        | inl d ↦
            rw (found, d, reconcile_backup)
              (after_reading (finalize_backup api system backup) (Call.get_backup key) log refl
                (Childless-finalize_backup api system backup))
        | inr d ↦
            let bare : has_backup_finalizer backup ≡ false = ground arith in
            rw (found, d, bare, reconcile_backup) (ground arith)
      ]

-- A pass over an object that lacks its finalizer or is being deleted, by the log after it.
pub data Unguarded (api : Api) (registry : Registry) (system : String) (key : Key) (log : Log)
    : Log → Type 0 where
  of_fleet :
      (fleet : GameServerFleet)
      → api.get_fleet log key ≡ ok fleet
      → (is_some fleet.meta.deletion_timestamp || not (has_fleet_finalizer fleet)) ≡ true
      → Unguarded api registry system key log (reconcile api key log).1
  of_server :
      (gs : GameServer)
      → api.get_server log key ≡ ok gs
      → (is_some gs.meta.deletion_timestamp || not (has_finalizer gs)) ≡ true
      → Unguarded api registry system key log (reconcile_server api registry key log).1
  of_backup :
      (backup : GameServerBackup)
      → api.get_backup log key ≡ ok backup
      → (is_some backup.meta.deletion_timestamp || not (has_backup_finalizer backup)) ≡ true
      → Unguarded api registry system key log (reconcile_backup api system key log).1

-- A pass over a fleet, a GameServer or a backup that lacks its finalizer or is being deleted creates
-- no GameServer, StatefulSet, Service or CronJob and keeps none in step.
pub passes_guarded :
    (api : Api) (registry : Registry) (system : String) (key : Key) (log after : Log)
    → Unguarded api registry system key log after
    → count_calls is_child after ≡ count_calls is_child log
passes_guarded api registry system key log _ (of_fleet fleet found h) =
    fleet_guarded api key log fleet found h
passes_guarded api registry system key log _ (of_server gs found h) =
    server_guarded api key log registry gs found h
passes_guarded api registry system key log _ (of_backup backup found h) =
    backup_guarded api key log system backup found h
