-- ===== src/Api/ServerTypes.antt =====
-- api/v1alpha1/gameserver_types.go
use gobehost_operator.Prelude.{ℕ, String, List, Option, StringMap, Bool}
use gobehost_operator.Prelude.Int.{ℤ}
use gobehost_operator.Kube.{Opaque, ObjectMeta, Condition, EnvVar, Quantity}

-- `unset` is the empty phase of a new object.
pub data GameServerPhase : Type 0 where
  unset pending provisioning running stopping stopped failed backup_in_progress : GameServerPhase

abbrev pub game_server_finalizer : String
game_server_finalizer = "games.gobehost.com/finalizer"

pub record GameSpec : Type 0 where
  pub type : String
  pub version : String
  pub profile : String
  pub mode : String

pub record RuntimeSpec : Type 0 where
  pub image : String
  pub image_pull_policy : String
  pub command : List String
  pub args : List String
  pub env : List EnvVar
  pub env_from : List Opaque

pub record StorageSpec : Type 0 where
  pub size : Quantity
  pub storage_class : Option String
  pub access_modes : List String

pub record PortSpec : Type 0 where
  pub name : String
  pub port : ℤ
  pub target_port : Option ℤ
  pub protocol : String

pub record NetworkSpec : Type 0 where
  pub ports : List PortSpec
  pub service_type : String
  pub hostname : String
  pub annotations : StringMap

pub record ServerSpec : Type 0 where
  pub max_players : Option ℤ
  pub motd : String
  pub level_name : String
  pub whitelist : List String
  pub ops : List String
  pub difficulty : String
  pub game_mode : String
  pub pvp : Option Bool
  pub online_mode : Option Bool

pub record SchedulingSpec : Type 0 where
  pub node_selector : StringMap
  pub affinity : Option Opaque
  pub tolerations : List Opaque

pub record SecuritySpec : Type 0 where
  pub run_as_non_root : Option Bool
  pub run_as_user : Option ℤ
  pub run_as_group : Option ℤ
  pub fs_group : Option ℤ
  pub read_only_root_filesystem : Option Bool
  pub drop_all_capabilities : Option Bool
  pub seccomp_profile : String

pub record PortInfo : Type 0 where
  pub name : String
  pub port : ℤ
  pub protocol : String

pub record GameServerSpec : Type 0 where
  pub game : GameSpec
  pub runtime : RuntimeSpec
  pub resources : Opaque
  pub storage : StorageSpec
  pub network : NetworkSpec
  pub server : Option ServerSpec
  pub scheduling : Option SchedulingSpec
  pub security : Option SecuritySpec

pub record GameServerStatus : Type 0 where
  pub conditions : List Condition
  pub phase : GameServerPhase
  pub ready : Bool
  pub endpoint : String
  pub address : String
  pub ports : List PortInfo
  pub player_count : Option ℤ
  pub observed_generation : ℕ

pub record GameServer : Type 0 where
  pub meta : ObjectMeta
  pub spec : GameServerSpec
  pub status : GameServerStatus
