-- ===== src/Webhook/GameServers.antt =====
-- internal/webhook/v1alpha1/gameserver_webhook.go
use gobehost_operator.Prelude.{
  ℕ, suc, Bool, true, ◌||◌, not, List, [], ◌∷◌, ◌++◌, Option, none, some, ◌==◌, if◌then◌else◌,
}
use gobehost_operator.Prelude.Int.{ℤ, pos, ltb_ℤ}
use gobehost_operator.Api.{PortSpec, SecuritySpec, GameServer}
use gobehost_operator.Webhook.Common.{
  FieldPath, FieldError, child, index, forbidden, invalid, error_if, validate_required,
  default_common,
}

abbrev default_target : ℤ → Option ℤ → Option ℤ
default_target port none = some port
default_target port (some t) = some t

unfoldable pub default_port : PortSpec → PortSpec
default_port p = record p {
  protocol = if p.protocol == "" then "TCP" else p.protocol;
  target_port = default_target p.port p.target_port;
}

unfoldable pub default_ports : List PortSpec → List PortSpec
unfolding default_port
default_ports [] = []
default_ports (p ∷ ps) = default_port p ∷ default_ports ps

-- `if p == nil { p = ptr.To(d) }`
abbrev pub default_to {ℓ} : {A : Type ℓ} → A → Option A → Option A
default_to d none = some d
default_to d (some v) = some v

abbrev empty_security : SecuritySpec
empty_security = record {
  run_as_non_root = none;
  run_as_user = none;
  run_as_group = none;
  fs_group = none;
  read_only_root_filesystem = none;
  drop_all_capabilities = none;
  seccomp_profile = "";
}

fill_security : SecuritySpec → SecuritySpec
fill_security s = record s {
  run_as_non_root = default_to true s.run_as_non_root;
  run_as_user = default_to (pos 1000) s.run_as_user;
  run_as_group = default_to (pos 1000) s.run_as_group;
  fs_group = default_to (pos 1000) s.fs_group;
  seccomp_profile = if s.seccomp_profile == "" then "RuntimeDefault" else s.seccomp_profile;
  drop_all_capabilities = default_to true s.drop_all_capabilities;
}

unfoldable pub default_security : Option SecuritySpec → Option SecuritySpec
unfolding fill_security
default_security none = some (fill_security empty_security)
default_security (some s) = some (fill_security s)

-- Default
unfoldable pub default_game_server : GameServer → GameServer
unfolding default_common default_ports default_security
default_game_server obj =
    let spec = default_common obj.spec in
    record obj {
      spec = record spec {
        network = record (spec.network) { ports = default_ports spec.network.ports };
        security = default_security spec.security;
      };
    }

-- v < 1 || v > 65535
abbrev pub out_of_range : ℤ → Bool
out_of_range v = ltb_ℤ v (pos 1) || ltb_ℤ (pos 65535) v

abbrev pub ports_path : FieldPath
ports_path = child "spec" ∷ child "network" ∷ child "ports" ∷ []

unfoldable pub target_errors : FieldPath → Option ℤ → List FieldError
target_errors path none = []
target_errors path (some t) =
    error_if (out_of_range t)
      (invalid (path ++ child "targetPort" ∷ []) t "targetPort must be between 1 and 65535")

unfoldable pub port_errors : FieldPath → PortSpec → List FieldError
unfolding target_errors
port_errors path p =
    error_if (out_of_range p.port)
      (invalid (path ++ child "port" ∷ []) p.port "port must be between 1 and 65535")
    ++ target_errors path p.target_port

unfoldable pub validate_ports : ℕ → List PortSpec → List FieldError
unfolding port_errors
validate_ports i [] = []
validate_ports i (p ∷ ps) = port_errors (ports_path ++ index i ∷ []) p ++ validate_ports (suc i) ps

-- validateGameServer
unfoldable pub validate_game_server : GameServer → List FieldError
unfolding validate_required validate_ports
validate_game_server gs =
    validate_required (child "spec" ∷ []) gs.spec ++ validate_ports 0 gs.spec.network.ports

-- ValidateCreate: the request is admitted exactly when the list is empty (ToAggregate is nil).
unfoldable pub validate_create : GameServer → List FieldError
unfolding validate_game_server
validate_create obj = validate_game_server obj

-- ValidateUpdate
unfoldable pub validate_update : GameServer → GameServer → List FieldError
unfolding validate_game_server
validate_update old_obj new_obj =
    validate_game_server new_obj
    ++ error_if (not (old_obj.spec.game.type == new_obj.spec.game.type))
        (forbidden (child "spec" ∷ child "game" ∷ child "type" ∷ []) "game type is immutable")

-- ValidateDelete
unfoldable pub validate_delete : GameServer → List FieldError
validate_delete obj = []
