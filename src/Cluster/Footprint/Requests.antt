-- ===== src/Cluster/Footprint/Requests.antt =====
-- One rule for each request of the client, and the rules for search.
use gobehost_operator.Prelude.{String, Option, StringMap}
use gobehost_operator.Prelude.Int.{ℤ}
use gobehost_operator.Kube.{Key, Service, StatefulSet, Job, CronJob}
use gobehost_operator.Api.{GameServer, GameServerFleet, GameServerBackup}
use gobehost_operator.Cluster.Interface.{Call, Api}
use gobehost_operator.Cluster.Actions.{
  now, get_server, get_fleet, get_backup, get_stateful_set, get_service, get_pvc, get_job,
  get_cron_job, get_secret, get_config_map, create_server, update_server, patch_server,
  delete_server, update_server_status, update_fleet, update_fleet_status, update_backup,
  update_backup_status, delete_service, update_stateful_set, create_cron_job, create_job,
  list_servers, list_jobs, apply_service, apply_stateful_set, apply_cron_job, send_command,
}
use gobehost_operator.Cluster.Footprint.Calls.{
  Makes, Makes-pure, Makes-if, Makes-answer, Makes-bind, Makes-sleep, Makes-call, same,
}

module _ {P : Call → Type 0} (api : Api) where
  pub Makes-now : Makes P (now api)
  Makes-now = record { at = λ log. same }

  pub Makes-get_server : (x : Key) → P (Call.get_server x) → Makes P (get_server api x)
  Makes-get_server x p = Makes-call p

  pub Makes-get_fleet : (x : Key) → P (Call.get_fleet x) → Makes P (get_fleet api x)
  Makes-get_fleet x p = Makes-call p

  pub Makes-get_backup : (x : Key) → P (Call.get_backup x) → Makes P (get_backup api x)
  Makes-get_backup x p = Makes-call p

  pub Makes-get_stateful_set :
      (x : Key) → P (Call.get_stateful_set x) → Makes P (get_stateful_set api x)
  Makes-get_stateful_set x p = Makes-call p

  pub Makes-get_service : (x : Key) → P (Call.get_service x) → Makes P (get_service api x)
  Makes-get_service x p = Makes-call p

  pub Makes-get_pvc : (x : Key) → P (Call.get_pvc x) → Makes P (get_pvc api x)
  Makes-get_pvc x p = Makes-call p

  pub Makes-get_job : (x : Key) → P (Call.get_job x) → Makes P (get_job api x)
  Makes-get_job x p = Makes-call p

  pub Makes-get_cron_job : (x : Key) → P (Call.get_cron_job x) → Makes P (get_cron_job api x)
  Makes-get_cron_job x p = Makes-call p

  pub Makes-get_secret : (x : Key) → P (Call.get_secret x) → Makes P (get_secret api x)
  Makes-get_secret x p = Makes-call p

  pub Makes-get_config_map : (x : Key) → P (Call.get_config_map x) → Makes P (get_config_map api x)
  Makes-get_config_map x p = Makes-call p

  pub Makes-create_server :
      (x : GameServer) → P (Call.create_server x) → Makes P (create_server api x)
  Makes-create_server x p = Makes-call p

  pub Makes-update_server :
      (x : GameServer) → P (Call.update_server x) → Makes P (update_server api x)
  Makes-update_server x p = Makes-call p

  pub Makes-patch_server : (x : GameServer) → P (Call.patch_server x) → Makes P (patch_server api x)
  Makes-patch_server x p = Makes-call p

  pub Makes-delete_server :
      (x : GameServer) → P (Call.delete_server x) → Makes P (delete_server api x)
  Makes-delete_server x p = Makes-call p

  pub Makes-update_server_status :
      (x : GameServer) → P (Call.update_server_status x) → Makes P (update_server_status api x)
  Makes-update_server_status x p = Makes-call p

  pub Makes-update_fleet :
      (x : GameServerFleet) → P (Call.update_fleet x) → Makes P (update_fleet api x)
  Makes-update_fleet x p = Makes-call p

  pub Makes-update_fleet_status :
      (x : GameServerFleet) → P (Call.update_fleet_status x) → Makes P (update_fleet_status api x)
  Makes-update_fleet_status x p = Makes-call p

  pub Makes-update_backup :
      (x : GameServerBackup) → P (Call.update_backup x) → Makes P (update_backup api x)
  Makes-update_backup x p = Makes-call p

  pub Makes-update_backup_status :
      (x : GameServerBackup)
      → P (Call.update_backup_status x)
      → Makes P (update_backup_status api x)
  Makes-update_backup_status x p = Makes-call p

  pub Makes-delete_service :
      (x : Service) → P (Call.delete_service x) → Makes P (delete_service api x)
  Makes-delete_service x p = Makes-call p

  pub Makes-update_stateful_set :
      (x : StatefulSet) → P (Call.update_stateful_set x) → Makes P (update_stateful_set api x)
  Makes-update_stateful_set x p = Makes-call p

  pub Makes-create_cron_job :
      (x : CronJob) → P (Call.create_cron_job x) → Makes P (create_cron_job api x)
  Makes-create_cron_job x p = Makes-call p

  pub Makes-create_job : (x : Job) → P (Call.create_job x) → Makes P (create_job api x)
  Makes-create_job x p = Makes-call p

  pub Makes-list_servers :
      (x : String) (y : StringMap) → P (Call.list_servers x y) → Makes P (list_servers api x y)
  Makes-list_servers x y p = Makes-call p

  pub Makes-list_jobs :
      (x : String) (y : StringMap) → P (Call.list_jobs x y) → Makes P (list_jobs api x y)
  Makes-list_jobs x y p = Makes-call p

  pub Makes-apply_service :
      (x : Service) (f : Service → Service)
      → P (Call.apply_service x f)
      → Makes P (apply_service api x f)
  Makes-apply_service x f p = Makes-call p

  pub Makes-apply_stateful_set :
      (x : StatefulSet) (f : StatefulSet → Option StatefulSet)
      → P (Call.apply_stateful_set x f)
      → Makes P (apply_stateful_set api x f)
  Makes-apply_stateful_set x f p = Makes-call p

  pub Makes-apply_cron_job :
      (x : CronJob) (f : CronJob → CronJob)
      → P (Call.apply_cron_job x f)
      → Makes P (apply_cron_job api x f)
  Makes-apply_cron_job x f p = Makes-call p

  pub Makes-send_command :
      (host : String) (port : ℤ) (password : String) (command : String) (timeout : ℤ)
      → P (Call.send_command host port password command timeout)
      → Makes P (send_command api host port password command timeout)
  Makes-send_command host port password command timeout p = Makes-call p

-- The rules for search.
pub ruleset footprint = (
  Makes-pure, Makes-if, Makes-answer, Makes-bind, Makes-now, Makes-sleep, Makes-get_server,
  Makes-get_fleet, Makes-get_backup, Makes-get_stateful_set, Makes-get_service, Makes-get_pvc,
  Makes-get_job, Makes-get_cron_job, Makes-get_secret, Makes-get_config_map, Makes-create_server,
  Makes-update_server, Makes-patch_server, Makes-delete_server, Makes-update_server_status,
  Makes-update_fleet, Makes-update_fleet_status, Makes-update_backup, Makes-update_backup_status,
  Makes-delete_service, Makes-update_stateful_set, Makes-create_cron_job, Makes-create_job,
  Makes-list_servers, Makes-list_jobs, Makes-apply_service, Makes-apply_stateful_set,
  Makes-apply_cron_job, Makes-send_command,
)
