-- ===== src/Api/Schema.antt =====
-- api/v1alpha1/*_types.go: the markers `+kubebuilder:validation` and `+kubebuilder:default`, from which
-- the schemas of the resources are made. A field with `omitempty` that holds its zero value is absent
-- from the request: no validation reads it, and its default is set.
use gobehost_operator.Prelude.{
  ◌&&◌, ◌||◌, Bool, true, not, String, List, [], ◌∷◌, Option, none, some, ◌==◌, leb, if◌then◌else◌,
  length,
}
use gobehost_operator.Prelude.Int.{ℤ, pos, ltb_ℤ, eqb_ℤ}
use gobehost_operator.Api.ServerTypes.{
  RuntimeSpec, StorageSpec, PortSpec, NetworkSpec, SecuritySpec, GameServerSpec,
}
use gobehost_operator.Api.FleetTypes.{
  rolling_update_strategy_type, UpdateStrategy, GracefulShutdownSpec, GameServerFleetSpec,
  RolloutRecord, GameServerFleetStatus,
}
use gobehost_operator.Api.BackupTypes.{TargetReference, GameServerBackupSpec}

-- Minimum and Maximum
abbrev pub within : ℤ → ℤ → ℤ → Bool
within low high v = not (ltb_ℤ v low) && not (ltb_ℤ high v)

-- PortSpec; targetPort has no bounds.
unfoldable pub port_fits : PortSpec → Bool
port_fits p = within (pos 1) (pos 65535) p.port

unfoldable pub ports_fit : List PortSpec → Bool
unfolding port_fits
ports_fit [] = true
ports_fit (p ∷ ps) = port_fits p && ports_fit ps

-- NetworkSpec: MinItems=1
unfoldable pub network_fits : NetworkSpec → Bool
unfolding ports_fit
network_fits network = leb 1 (length network.ports) && ports_fit network.ports

abbrev pub absent_or : String → Bool → Bool
absent_or text b = text == "" || b

-- UpdateStrategy: Enum
unfoldable pub strategy_fits : UpdateStrategy → Bool
strategy_fits strategy =
    absent_or strategy.type
      (strategy.type == rolling_update_strategy_type || strategy.type == "Recreate")

-- GracefulShutdownSpec: Minimum=3
unfoldable pub shutdown_fits : Option GracefulShutdownSpec → Bool
shutdown_fits none = true
shutdown_fits (some config) =
    eqb_ℤ config.countdown_seconds (pos 0) || not (ltb_ℤ config.countdown_seconds (pos 3))

-- GameServerFleetSpec
unfoldable pub fleet_spec_fits : GameServerFleetSpec → Bool
unfolding strategy_fits shutdown_fits network_fits
fleet_spec_fits spec =
    (eqb_ℤ spec.replicas (pos 0) || within (pos 1) (pos 1) spec.replicas)
    && (strategy_fits spec.strategy
        && (shutdown_fits spec.graceful_shutdown && network_fits spec.template.spec.network))

-- RolloutRecord: Enum
unfoldable pub record_fits : RolloutRecord → Bool
record_fits r = absent_or r.result (r.result == "Success" || r.result == "Failed")

unfoldable pub records_fit : List RolloutRecord → Bool
unfolding record_fits
records_fit [] = true
records_fit (r ∷ rs) = record_fits r && records_fit rs

-- GameServerFleetStatus: MaxItems=10; the phases are a data type.
unfoldable pub fleet_status_fits : GameServerFleetStatus → Bool
unfolding records_fit
fleet_status_fits status = leb (length status.history) 10 && records_fit status.history

-- TargetReference: Enum
unfoldable pub target_fits : TargetReference → Bool
target_fits ref = ref.kind == "GameServer" || ref.kind == "GameServerFleet"

abbrev at_least_one : Option ℤ → Bool
at_least_one none = true
at_least_one (some v) = not (ltb_ℤ v (pos 1))

-- GameServerBackupSpec
unfoldable pub backup_spec_fits : GameServerBackupSpec → Bool
unfolding target_fits
backup_spec_fits spec = target_fits spec.target_ref && at_least_one spec.retention

-- The default of a field that is absent: of a text, a number, a pointer and a list
abbrev text_default : String → String → String
text_default d s = if s == "" then d else s

abbrev number_default : ℤ → ℤ → ℤ
number_default d v = if eqb_ℤ v (pos 0) then d else v

abbrev pointer_default {ℓ} : {A : Type ℓ} → A → Option A → Option A
pointer_default d none = some d
pointer_default d (some v) = some v

abbrev list_default : String → List String → List String
list_default d [] = d ∷ []
list_default d (x ∷ xs) = x ∷ xs

unfoldable pub runtime_defaults : RuntimeSpec → RuntimeSpec
runtime_defaults runtime = record runtime {
  image_pull_policy = text_default "IfNotPresent" runtime.image_pull_policy;
}

unfoldable pub storage_defaults : StorageSpec → StorageSpec
storage_defaults storage = record storage {
  access_modes = list_default "ReadWriteOnce" storage.access_modes;
}

unfoldable pub port_defaults : PortSpec → PortSpec
port_defaults p = record p { protocol = text_default "TCP" p.protocol }

unfoldable pub ports_defaults : List PortSpec → List PortSpec
unfolding port_defaults
ports_defaults [] = []
ports_defaults (p ∷ ps) = port_defaults p ∷ ports_defaults ps

unfoldable pub network_defaults : NetworkSpec → NetworkSpec
unfolding ports_defaults
network_defaults network = record network {
  ports = ports_defaults network.ports;
  service_type = text_default "LoadBalancer" network.service_type;
}

unfoldable pub security_defaults : Option SecuritySpec → Option SecuritySpec
security_defaults none = none
security_defaults (some s) = some (record s {
  run_as_non_root = pointer_default true s.run_as_non_root;
  drop_all_capabilities = pointer_default true s.drop_all_capabilities;
  seccomp_profile = text_default "RuntimeDefault" s.seccomp_profile;
})

unfoldable pub server_spec_defaults : GameServerSpec → GameServerSpec
unfolding runtime_defaults storage_defaults network_defaults security_defaults
server_spec_defaults spec = record spec {
  runtime = runtime_defaults spec.runtime;
  storage = storage_defaults spec.storage;
  network = network_defaults spec.network;
  security = security_defaults spec.security;
}

unfoldable pub shutdown_defaults : Option GracefulShutdownSpec → Option GracefulShutdownSpec
shutdown_defaults none = none
shutdown_defaults (some config) = some (record config {
  countdown_seconds = number_default (pos 5) config.countdown_seconds;
  rcon_port = number_default (pos 25575) config.rcon_port;
})

unfoldable pub fleet_spec_defaults : GameServerFleetSpec → GameServerFleetSpec
unfolding shutdown_defaults server_spec_defaults
fleet_spec_defaults spec = record spec {
  replicas = number_default (pos 1) spec.replicas;
  strategy = record { type = text_default rolling_update_strategy_type spec.strategy.type };
  graceful_shutdown = shutdown_defaults spec.graceful_shutdown;
  template = record (spec.template) { spec = server_spec_defaults spec.template.spec };
}

unfoldable pub backup_spec_defaults : GameServerBackupSpec → GameServerBackupSpec
backup_spec_defaults spec = record spec {
  retention = pointer_default (pos 5) spec.retention;
  include_metadata = pointer_default true spec.include_metadata;
  backup_on_delete = pointer_default true spec.backup_on_delete;
}
