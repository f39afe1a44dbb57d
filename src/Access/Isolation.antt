-- ===== src/Access/Isolation.antt =====
-- Which namespace a call concerns, and what the API server's answers say of namespaces.
pub mod Rules
pub mod FleetCalls
pub mod FleetDeletion
pub mod ServerCalls
pub mod BackupCalls
pub mod BackupPasses
pub mod Passes
use gobehost_operator.Prelude.{◌≡◌, refl, ◌∷◌, ◌∙◌, String, List, StringMap, Option, some, All}
use gobehost_operator.Kube.{Key, ObjectMeta, Service, StatefulSet, CronJob}
use gobehost_operator.Api.{GameServer, GameServerFleet, GameServerBackup}
use gobehost_operator.Cluster.{ApiError, Response, ok, err, Call, Log, Api, M, ◌>>=◌}
use gobehost_operator.Cluster.Footprint.{Makes, Makes-known, Makes-call}

-- The call concerns an object of the namespace, the ConfigMap of the platform, or no object at all.
abbrev pub Within : String → String → Call → Type 0
Within system ns (Call.get_server key) = key.namespace ≡ ns
Within system ns (Call.get_fleet key) = key.namespace ≡ ns
Within system ns (Call.get_backup key) = key.namespace ≡ ns
Within system ns (Call.get_stateful_set key) = key.namespace ≡ ns
Within system ns (Call.get_service key) = key.namespace ≡ ns
Within system ns (Call.get_pvc key) = key.namespace ≡ ns
Within system ns (Call.get_job key) = key.namespace ≡ ns
Within system ns (Call.get_cron_job key) = key.namespace ≡ ns
Within system ns (Call.get_secret key) = key.namespace ≡ ns
Within system ns (Call.get_config_map key) = key.namespace ≡ system
Within system ns (Call.list_servers n labels) = n ≡ ns
Within system ns (Call.list_jobs n labels) = n ≡ ns
Within system ns (Call.create_server x) = x.meta.namespace ≡ ns
Within system ns (Call.update_server x) = x.meta.namespace ≡ ns
Within system ns (Call.patch_server x) = x.meta.namespace ≡ ns
Within system ns (Call.delete_server x) = x.meta.namespace ≡ ns
Within system ns (Call.update_server_status x) = x.meta.namespace ≡ ns
Within system ns (Call.update_fleet x) = x.meta.namespace ≡ ns
Within system ns (Call.update_fleet_status x) = x.meta.namespace ≡ ns
Within system ns (Call.update_backup x) = x.meta.namespace ≡ ns
Within system ns (Call.update_backup_status x) = x.meta.namespace ≡ ns
Within system ns (Call.apply_service x f) = x.meta.namespace ≡ ns
Within system ns (Call.apply_stateful_set x f) = x.meta.namespace ≡ ns
Within system ns (Call.apply_cron_job x f) = x.meta.namespace ≡ ns
Within system ns (Call.delete_service x) = x.meta.namespace ≡ ns
Within system ns (Call.update_stateful_set x) = x.meta.namespace ≡ ns
Within system ns (Call.create_cron_job x) = x.meta.namespace ≡ ns
Within system ns (Call.create_job x) = x.meta.namespace ≡ ns
Within system ns (Call.send_command host port password command timeout) = Unit
Within system ns (Call.sleep n) = Unit

-- The API server answers a read with an object of the namespace asked for, and a write with the object that
-- it stored in the namespace of the one sent; SetControllerReference keeps the namespace.
pub record Confines (api : Api) : Type 0 where
  pub controlled :
      (owner child meta : ObjectMeta)
      → api.set_controller_reference owner child ≡ some meta
      → meta.namespace ≡ child.namespace
  pub found_server :
      (log : Log) (key : Key) (gs : GameServer)
      → api.get_server log key ≡ ok gs
      → gs.meta.namespace ≡ key.namespace
  pub found_fleet :
      (log : Log) (key : Key) (fleet : GameServerFleet)
      → api.get_fleet log key ≡ ok fleet
      → fleet.meta.namespace ≡ key.namespace
  pub found_backup :
      (log : Log) (key : Key) (backup : GameServerBackup)
      → api.get_backup log key ≡ ok backup
      → backup.meta.namespace ≡ key.namespace
  pub found_stateful_set :
      (log : Log) (key : Key) (sts : StatefulSet)
      → api.get_stateful_set log key ≡ ok sts
      → sts.meta.namespace ≡ key.namespace
  pub found_service :
      (log : Log) (key : Key) (svc : Service)
      → api.get_service log key ≡ ok svc
      → svc.meta.namespace ≡ key.namespace
  pub found_cron_job :
      (log : Log) (key : Key) (cj : CronJob)
      → api.get_cron_job log key ≡ ok cj
      → cj.meta.namespace ≡ key.namespace
  pub listed_servers :
      (log : Log) (n : String) (labels : StringMap) (items : List GameServer)
      → api.list_servers log n labels ≡ ok items
      → All (λ gs. gs.meta.namespace ≡ n) items
  pub stored_server :
      (log : Log) (sent stored : GameServer)
      → api.update_server log sent ≡ ok stored
      → stored.meta.namespace ≡ sent.meta.namespace
  pub stored_fleet :
      (log : Log) (sent stored : GameServerFleet)
      → api.update_fleet_status log sent ≡ ok stored
      → stored.meta.namespace ≡ sent.meta.namespace
  pub stored_backup :
      (log : Log) (sent stored : GameServerBackup)
      → api.update_backup_status log sent ≡ ok stored
      → stored.meta.namespace ≡ sent.meta.namespace
  pub stored_stateful_set :
      (log : Log) (sent stored : StatefulSet)
      → api.update_stateful_set log sent ≡ ok stored
      → stored.meta.namespace ≡ sent.meta.namespace
  pub applied_stateful_set :
      (log : Log) (sent stored : StatefulSet) (f : StatefulSet → Option StatefulSet)
      → api.apply_stateful_set log sent f ≡ ok stored
      → stored.meta.namespace ≡ sent.meta.namespace
  pub applied_service :
      (log : Log) (sent stored : Service) (f : Service → Service)
      → api.apply_service log sent f ≡ ok stored
      → stored.meta.namespace ≡ sent.meta.namespace

module _ {A B : Type 0} {P : Call → Type 0} where
  -- What follows a request may rely on what the answer satisfies.
  pub Makes-told :
      (Q : A → Type 0) (c : Call) (answer : Log → Response A) (f : Response A → M B)
      → P c
      → ((log : Log) (a : A) → answer log ≡ ok a → Q a)
      → ((a : A) → Q a → Makes P (f (ok a)))
      → ((e : ApiError) → Makes P (f (err e)))
      → Makes P ((λ log. (answer log, c ∷ log)) >>= f)
  Makes-told Q c answer f p told ha he =
      Makes-known (λ r. (a : A) → r ≡ ok a → Q a) (λ log. (answer log, c ∷ log)) f (Makes-call p)
        told cases
    where
      cases : (r : Response A) → ((a : A) → r ≡ ok a → Q a) → Makes P (f r)
      cases (ok a) q = ha a (q a refl)
      cases (err e) q = he e
