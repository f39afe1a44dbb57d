-- ===== src/Access/Isolation/Rules.antt =====
-- One rule for each request after which the namespace of the answer matters.
use gobehost_operator.Prelude.{◌≡◌, ◌∙◌, String, List, StringMap, Option, All}
use gobehost_operator.Kube.{Key, Service, StatefulSet, CronJob}
use gobehost_operator.Api.{GameServer, GameServerFleet, GameServerBackup}
use gobehost_operator.Cluster.{
  ApiError, Response, ok, err, Call, Api, M, ◌>>=◌, get_server, get_fleet, get_backup,
  get_stateful_set, get_service, get_cron_job, update_server, update_fleet_status,
  update_backup_status, update_stateful_set, list_servers, apply_service, apply_stateful_set,
}
use gobehost_operator.Cluster.Footprint.{Makes}
use gobehost_operator.Access.Isolation.{Within, Confines, Makes-told}

module _ {B : Type 0} {api : Api} (confines : Confines api) {system ns : String} where
  pub then_get_server :
      (key : Key) (f : Response GameServer → M B)
      → key.namespace ≡ ns
      → ((a : GameServer) → a.meta.namespace ≡ ns → Makes (Within system ns) (f (ok a)))
      → ((e : ApiError) → Makes (Within system ns) (f (err e)))
      → Makes (Within system ns) (get_server api key >>= f)
  then_get_server key f h ha he =
      Makes-told (λ a. a.meta.namespace ≡ ns) (Call.get_server key) _ f h
        (λ log a e. confines.found_server log key a e ∙ h) ha he

  pub then_get_fleet :
      (key : Key) (f : Response GameServerFleet → M B)
      → key.namespace ≡ ns
      → ((a : GameServerFleet) → a.meta.namespace ≡ ns → Makes (Within system ns) (f (ok a)))
      → ((e : ApiError) → Makes (Within system ns) (f (err e)))
      → Makes (Within system ns) (get_fleet api key >>= f)
  then_get_fleet key f h ha he =
      Makes-told (λ a. a.meta.namespace ≡ ns) (Call.get_fleet key) _ f h
        (λ log a e. confines.found_fleet log key a e ∙ h) ha he

  pub then_get_backup :
      (key : Key) (f : Response GameServerBackup → M B)
      → key.namespace ≡ ns
      → ((a : GameServerBackup) → a.meta.namespace ≡ ns → Makes (Within system ns) (f (ok a)))
      → ((e : ApiError) → Makes (Within system ns) (f (err e)))
      → Makes (Within system ns) (get_backup api key >>= f)
  then_get_backup key f h ha he =
      Makes-told (λ a. a.meta.namespace ≡ ns) (Call.get_backup key) _ f h
        (λ log a e. confines.found_backup log key a e ∙ h) ha he

  pub then_get_stateful_set :
      (key : Key) (f : Response StatefulSet → M B)
      → key.namespace ≡ ns
      → ((a : StatefulSet) → a.meta.namespace ≡ ns → Makes (Within system ns) (f (ok a)))
      → ((e : ApiError) → Makes (Within system ns) (f (err e)))
      → Makes (Within system ns) (get_stateful_set api key >>= f)
  then_get_stateful_set key f h ha he =
      Makes-told (λ a. a.meta.namespace ≡ ns) (Call.get_stateful_set key) _ f h
        (λ log a e. confines.found_stateful_set log key a e ∙ h) ha he

  pub then_get_service :
      (key : Key) (f : Response Service → M B)
      → key.namespace ≡ ns
      → ((a : Service) → a.meta.namespace ≡ ns → Makes (Within system ns) (f (ok a)))
      → ((e : ApiError) → Makes (Within system ns) (f (err e)))
      → Makes (Within system ns) (get_service api key >>= f)
  then_get_service key f h ha he =
      Makes-told (λ a. a.meta.namespace ≡ ns) (Call.get_service key) _ f h
        (λ log a e. confines.found_service log key a e ∙ h) ha he

  pub then_get_cron_job :
      (key : Key) (f : Response CronJob → M B)
      → key.namespace ≡ ns
      → ((a : CronJob) → a.meta.namespace ≡ ns → Makes (Within system ns) (f (ok a)))
      → ((e : ApiError) → Makes (Within system ns) (f (err e)))
      → Makes (Within system ns) (get_cron_job api key >>= f)
  then_get_cron_job key f h ha he =
      Makes-told (λ a. a.meta.namespace ≡ ns) (Call.get_cron_job key) _ f h
        (λ log a e. confines.found_cron_job log key a e ∙ h) ha he

  pub then_update_server :
      (x : GameServer) (f : Response GameServer → M B)
      → x.meta.namespace ≡ ns
      → ((a : GameServer) → a.meta.namespace ≡ ns → Makes (Within system ns) (f (ok a)))
      → ((e : ApiError) → Makes (Within system ns) (f (err e)))
      → Makes (Within system ns) (update_server api x >>= f)
  then_update_server x f h ha he =
      Makes-told (λ a. a.meta.namespace ≡ ns) (Call.update_server x) _ f h
        (λ log a e. confines.stored_server log x a e ∙ h) ha he

  pub then_update_fleet_status :
      (x : GameServerFleet) (f : Response GameServerFleet → M B)
      → x.meta.namespace ≡ ns
      → ((a : GameServerFleet) → a.meta.namespace ≡ ns → Makes (Within system ns) (f (ok a)))
      → ((e : ApiError) → Makes (Within system ns) (f (err e)))
      → Makes (Within system ns) (update_fleet_status api x >>= f)
  then_update_fleet_status x f h ha he =
      Makes-told (λ a. a.meta.namespace ≡ ns) (Call.update_fleet_status x) _ f h
        (λ log a e. confines.stored_fleet log x a e ∙ h) ha he

  pub then_update_backup_status :
      (x : GameServerBackup) (f : Response GameServerBackup → M B)
      → x.meta.namespace ≡ ns
      → ((a : GameServerBackup) → a.meta.namespace ≡ ns → Makes (Within system ns) (f (ok a)))
      → ((e : ApiError) → Makes (Within system ns) (f (err e)))
      → Makes (Within system ns) (update_backup_status api x >>= f)
  then_update_backup_status x f h ha he =
      Makes-told (λ a. a.meta.namespace ≡ ns) (Call.update_backup_status x) _ f h
        (λ log a e. confines.stored_backup log x a e ∙ h) ha he

  pub then_update_stateful_set :
      (x : StatefulSet) (f : Response StatefulSet → M B)
      → x.meta.namespace ≡ ns
      → ((a : StatefulSet) → a.meta.namespace ≡ ns → Makes (Within system ns) (f (ok a)))
      → ((e : ApiError) → Makes (Within system ns) (f (err e)))
      → Makes (Within system ns) (update_stateful_set api x >>= f)
  then_update_stateful_set x f h ha he =
      Makes-told (λ a. a.meta.namespace ≡ ns) (Call.update_stateful_set x) _ f h
        (λ log a e. confines.stored_stateful_set log x a e ∙ h) ha he

  pub then_apply_service :
      (x : Service) (g : Service → Service) (f : Response Service → M B)
      → x.meta.namespace ≡ ns
      → ((a : Service) → a.meta.namespace ≡ ns → Makes (Within system ns) (f (ok a)))
      → ((e : ApiError) → Makes (Within system ns) (f (err e)))
      → Makes (Within system ns) (apply_service api x g >>= f)
  then_apply_service x g f h ha he =
      Makes-told (λ a. a.meta.namespace ≡ ns) (Call.apply_service x g) _ f h
        (λ log a e. confines.applied_service log x a g e ∙ h) ha he

  pub then_apply_stateful_set :
      (x : StatefulSet) (g : StatefulSet → Option StatefulSet) (f : Response StatefulSet → M B)
      → x.meta.namespace ≡ ns
      → ((a : StatefulSet) → a.meta.namespace ≡ ns → Makes (Within system ns) (f (ok a)))
      → ((e : ApiError) → Makes (Within system ns) (f (err e)))
      → Makes (Within system ns) (apply_stateful_set api x g >>= f)
  then_apply_stateful_set x g f h ha he =
      Makes-told (λ a. a.meta.namespace ≡ ns) (Call.apply_stateful_set x g) _ f h
        (λ log a e. confines.applied_stateful_set log x a g e ∙ h) ha he

  pub then_list_servers :
      (n : String) (labels : StringMap) (f : Response (List GameServer) → M B)
      → n ≡ ns
      → ((items : List GameServer)
          → All (λ gs. gs.meta.namespace ≡ n) items
          → Makes (Within system ns) (f (ok items)))
      → ((e : ApiError) → Makes (Within system ns) (f (err e)))
      → Makes (Within system ns) (list_servers api n labels >>= f)
  then_list_servers n labels f h ha he =
      Makes-told (λ items. All (λ gs. gs.meta.namespace ≡ n) items) (Call.list_servers n labels) _ f
        h (λ log items e. confines.listed_servers log n labels items e) ha he
