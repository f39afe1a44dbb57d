-- ===== src/Api/FleetTypes.antt =====
-- api/v1alpha1/gameserverfleet_types.go
use gobehost_operator.Prelude.{ℕ, String, List, Option, Bool}
use gobehost_operator.Prelude.Int.{ℤ}
use gobehost_operator.Kube.{Time, ObjectMeta, Condition}
use gobehost_operator.Api.ServerTypes.{GameServerSpec}

abbrev pub rolling_update_strategy_type : String
rolling_update_strategy_type = "RollingUpdate"

pub record UpdateStrategy : Type 0 where
  pub type : String

pub record GameServerTemplate : Type 0 where
  pub meta : ObjectMeta
  pub spec : GameServerSpec

pub record GracefulShutdownSpec : Type 0 where
  pub enabled : Bool
  pub countdown_seconds : ℤ
  pub rcon_port : ℤ

pub record GameServerFleetSpec : Type 0 where
  pub replicas : ℤ
  pub strategy : UpdateStrategy
  pub graceful_shutdown : Option GracefulShutdownSpec
  pub template : GameServerTemplate

-- `fleet_unset` is the empty phase of a new object.
pub data FleetPhase : Type 0 where
  fleet_unset fleet_progressing fleet_available fleet_degraded fleet_failed : FleetPhase

pub record RolloutRecord : Type 0 where
  pub started_at : Time
  pub completed_at : Option Time
  pub from_version : String
  pub to_version : String
  pub result : String
  pub message : String

pub record GameServerFleetStatus : Type 0 where
  pub phase : FleetPhase
  pub observed_generation : ℕ
  pub ready_replicas : ℕ
  pub conditions : List Condition
  pub current_game_server : String
  pub updated_game_server : String
  pub history : List RolloutRecord

abbrev pub fleet_available_condition : String
fleet_available_condition = "Available"

abbrev pub fleet_progressing_condition : String
fleet_progressing_condition = "Progressing"

abbrev pub fleet_degraded_condition : String
fleet_degraded_condition = "Degraded"

abbrev pub game_server_fleet_finalizer : String
game_server_fleet_finalizer = "games.gobehost.com/fleet-finalizer"

abbrev pub template_hash_annotation : String
template_hash_annotation = "games.gobehost.com/template-hash"

abbrev pub fleet_name_label : String
fleet_name_label = "games.gobehost.com/fleet-name"

pub record GameServerFleet : Type 0 where
  pub meta : ObjectMeta
  pub spec : GameServerFleetSpec
  pub status : GameServerFleetStatus
