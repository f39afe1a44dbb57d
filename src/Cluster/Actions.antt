-- ===== src/Cluster/Actions.antt =====
-- The client's operations as actions: the answer, and the log with the call added.
use gobehost_operator.Prelude.{ℕ, String, List, ◌∷◌, Option, StringMap}
use gobehost_operator.Prelude.Int.{ℤ}
use gobehost_operator.Kube.{Key, Service, PersistentVolumeClaim, StatefulSet, Job, CronJob}
use gobehost_operator.Api.{GameServer, GameServerFleet, GameServerBackup}
use gobehost_operator.Cluster.Interface.{Response, Call, Log, Api}

abbrev pub M : Type 0 → Type 0
M A = Log → A × Log

abbrev pub pure : {A : Type 0} → A → M A
pure a log = (a, log)

infixl 5 ◌>>=◌ ◌>>◌
abbrev pub ◌>>=◌ : {A B : Type 0} → M A → (A → M B) → M B
◌>>=◌ m f log = let (a, log') = m log in f a log'

abbrev pub ◌>>◌ : {A B : Type 0} → M A → M B → M B
m >> k = m >>= λ _. k

abbrev pub sleep : ℕ → M (Unit {0})
sleep seconds log = (tt, Call.sleep seconds ∷ log)

module _ (api : Api) where
  -- the clock, read without a call
  abbrev pub now : M ℕ
  now log = (api.now log, log)

  abbrev pub send_command : String → ℤ → String → String → ℤ → M (Response String)
  send_command host port password command timeout log = (
    api.send_command log host port password command timeout,
    Call.send_command host port password command timeout ∷ log,
  )

  abbrev pub get_server : Key → M (Response GameServer)
  get_server x log = (api.get_server log x, Call.get_server x ∷ log)

  abbrev pub get_fleet : Key → M (Response GameServerFleet)
  get_fleet x log = (api.get_fleet log x, Call.get_fleet x ∷ log)

  abbrev pub get_backup : Key → M (Response GameServerBackup)
  get_backup x log = (api.get_backup log x, Call.get_backup x ∷ log)

  abbrev pub get_stateful_set : Key → M (Response StatefulSet)
  get_stateful_set x log = (api.get_stateful_set log x, Call.get_stateful_set x ∷ log)

  abbrev pub get_service : Key → M (Response Service)
  get_service x log = (api.get_service log x, Call.get_service x ∷ log)

  abbrev pub get_pvc : Key → M (Response PersistentVolumeClaim)
  get_pvc x log = (api.get_pvc log x, Call.get_pvc x ∷ log)

  abbrev pub get_job : Key → M (Response Job)
  get_job x log = (api.get_job log x, Call.get_job x ∷ log)

  abbrev pub get_cron_job : Key → M (Response CronJob)
  get_cron_job x log = (api.get_cron_job log x, Call.get_cron_job x ∷ log)

  abbrev pub get_secret : Key → M (Response (Unit {0}))
  get_secret x log = (api.get_secret log x, Call.get_secret x ∷ log)

  abbrev pub get_config_map : Key → M (Response StringMap)
  get_config_map x log = (api.get_config_map log x, Call.get_config_map x ∷ log)

  abbrev pub create_server : GameServer → M (Response GameServer)
  create_server x log = (api.create_server log x, Call.create_server x ∷ log)

  abbrev pub update_server : GameServer → M (Response GameServer)
  update_server x log = (api.update_server log x, Call.update_server x ∷ log)

  abbrev pub patch_server : GameServer → M (Response GameServer)
  patch_server x log = (api.patch_server log x, Call.patch_server x ∷ log)

  abbrev pub delete_server : GameServer → M (Response (Unit {0}))
  delete_server x log = (api.delete_server log x, Call.delete_server x ∷ log)

  abbrev pub update_server_status : GameServer → M (Response GameServer)
  update_server_status x log = (api.update_server_status log x, Call.update_server_status x ∷ log)

  abbrev pub update_fleet : GameServerFleet → M (Response GameServerFleet)
  update_fleet x log = (api.update_fleet log x, Call.update_fleet x ∷ log)

  abbrev pub update_fleet_status : GameServerFleet → M (Response GameServerFleet)
  update_fleet_status x log = (api.update_fleet_status log x, Call.update_fleet_status x ∷ log)

  abbrev pub update_backup : GameServerBackup → M (Response GameServerBackup)
  update_backup x log = (api.update_backup log x, Call.update_backup x ∷ log)

  abbrev pub update_backup_status : GameServerBackup → M (Response GameServerBackup)
  update_backup_status x log = (api.update_backup_status log x, Call.update_backup_status x ∷ log)

  abbrev pub delete_service : Service → M (Response (Unit {0}))
  delete_service x log = (api.delete_service log x, Call.delete_service x ∷ log)

  abbrev pub update_stateful_set : StatefulSet → M (Response StatefulSet)
  update_stateful_set x log = (api.update_stateful_set log x, Call.update_stateful_set x ∷ log)

  abbrev pub create_cron_job : CronJob → M (Response CronJob)
  create_cron_job x log = (api.create_cron_job log x, Call.create_cron_job x ∷ log)

  abbrev pub create_job : Job → M (Response Job)
  create_job x log = (api.create_job log x, Call.create_job x ∷ log)

  abbrev pub list_servers : String → StringMap → M (Response (List GameServer))
  list_servers x y log = (api.list_servers log x y, Call.list_servers x y ∷ log)

  abbrev pub list_jobs : String → StringMap → M (Response (List Job))
  list_jobs x y log = (api.list_jobs log x y, Call.list_jobs x y ∷ log)

  abbrev pub apply_service : Service → (Service → Service) → M (Response Service)
  apply_service x y log = (api.apply_service log x y, Call.apply_service x y ∷ log)

  abbrev pub apply_stateful_set :
      StatefulSet → (StatefulSet → Option StatefulSet) → M (Response StatefulSet)
  apply_stateful_set x y log = (api.apply_stateful_set log x y, Call.apply_stateful_set x y ∷ log)

  abbrev pub apply_cron_job : CronJob → (CronJob → CronJob) → M (Response CronJob)
  apply_cron_job x y log = (api.apply_cron_job log x y, Call.apply_cron_job x y ∷ log)
