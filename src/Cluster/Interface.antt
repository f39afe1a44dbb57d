-- ===== src/Cluster/Interface.antt =====
-- The Kubernetes client as the controllers see it, and the rest of the world outside the source: every
-- answer is a function of the calls made so far, so that any behaviour of the API server, other
-- clients included, is one choice of `Api`.
use gobehost_operator.Prelude.{ℕ, ◌≡◌, refl, ◌⊎◌, inl, inr, String, List, Option, StringMap}
use gobehost_operator.Prelude.Int.{ℤ}
use gobehost_operator.Kube.{
  Time, Key, ObjectMeta, Service, PersistentVolumeClaim, StatefulSet, Job, CronJob,
}
use gobehost_operator.Api.{GameServerSpec, GameServer, GameServerFleet, GameServerBackup}

-- errors.IsNotFound and errors.IsConflict tell the first two apart.
pub data ApiError : Type 0 where
  not_found conflict other_error : ApiError

pub data Response {ℓ} (A : Type ℓ) : Type ℓ where
  ok : A → Response A
  err : ApiError → Response A

pub data Call : Type 0 where
  get_server get_fleet get_backup get_stateful_set get_service get_pvc : Key → Call
  get_job get_cron_job get_secret get_config_map : Key → Call
  list_servers list_jobs : String → StringMap → Call
  create_server update_server patch_server delete_server update_server_status : GameServer → Call
  update_fleet update_fleet_status : GameServerFleet → Call
  update_backup update_backup_status : GameServerBackup → Call
  -- controllerutil.CreateOrUpdate: the object given and the function that edits it
  apply_service : Service → (Service → Service) → Call
  apply_stateful_set : StatefulSet → (StatefulSet → Option StatefulSet) → Call
  apply_cron_job : CronJob → (CronJob → CronJob) → Call
  delete_service : Service → Call
  update_stateful_set : StatefulSet → Call
  create_cron_job : CronJob → Call
  create_job : Job → Call
  -- rcon.SendCommand: host, port, password, command, timeout in seconds
  send_command : String → ℤ → String → String → ℤ → Call
  -- time.Sleep, in seconds
  sleep : ℕ → Call

-- The calls made so far, the latest first.
abbrev pub Log : Type 0
Log = List Call

pub record Api : Type 0 where
  -- metav1.Now()
  pub now : Log → Time
  pub get_server : Log → Key → Response GameServer
  pub get_fleet : Log → Key → Response GameServerFleet
  pub get_backup : Log → Key → Response GameServerBackup
  pub get_stateful_set : Log → Key → Response StatefulSet
  pub get_service : Log → Key → Response Service
  pub get_pvc : Log → Key → Response PersistentVolumeClaim
  pub get_job : Log → Key → Response Job
  pub get_cron_job : Log → Key → Response CronJob
  pub get_secret : Log → Key → Response (Unit {0})
  pub get_config_map : Log → Key → Response StringMap
  pub list_servers : Log → String → StringMap → Response (List GameServer)
  pub list_jobs : Log → String → StringMap → Response (List Job)
  -- a write returns the object that the server stored
  pub create_server : Log → GameServer → Response GameServer
  pub update_server : Log → GameServer → Response GameServer
  pub patch_server : Log → GameServer → Response GameServer
  pub delete_server : Log → GameServer → Response (Unit {0})
  pub update_server_status : Log → GameServer → Response GameServer
  pub update_fleet : Log → GameServerFleet → Response GameServerFleet
  pub update_fleet_status : Log → GameServerFleet → Response GameServerFleet
  pub update_backup : Log → GameServerBackup → Response GameServerBackup
  pub update_backup_status : Log → GameServerBackup → Response GameServerBackup
  pub apply_service : Log → Service → (Service → Service) → Response Service
  pub apply_stateful_set :
      Log → StatefulSet → (StatefulSet → Option StatefulSet) → Response StatefulSet
  pub apply_cron_job : Log → CronJob → (CronJob → CronJob) → Response CronJob
  pub delete_service : Log → Service → Response (Unit {0})
  pub update_stateful_set : Log → StatefulSet → Response StatefulSet
  pub create_cron_job : Log → CronJob → Response CronJob
  pub create_job : Log → Job → Response Job
  pub send_command : Log → String → ℤ → String → String → ℤ → Response String
  -- ctrl.SetControllerReference: owner, controlled; `none` is its error
  pub set_controller_reference : ObjectMeta → ObjectMeta → Option ObjectMeta
  -- fmt.Sprintf("%q", s)
  pub quote : String → String
  -- json.Marshal of a spec, as bytes
  pub marshal : GameServerSpec → List ℕ

-- To split on an answer and keep the equation.
pub Response-cases {ℓ} :
    {A : Type ℓ} (r : Response A) → ((a : A) × (r ≡ ok a)) ⊎ ((e : ApiError) × (r ≡ err e))
Response-cases (ok a) = inl (a, refl)
Response-cases (err e) = inr (e, refl)
