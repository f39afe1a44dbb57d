-- ===== src/Webhook/Fleets.antt =====
-- internal/webhook/v1alpha1/gameserverfleet_webhook.go
use gobehost_operator.Prelude.{not, List, [], ◌∷◌, ◌++◌, ◌==◌, if◌then◌else◌}
use gobehost_operator.Prelude.Int.{pos, eqb_ℤ}
use gobehost_operator.Api.{rolling_update_strategy_type, GameServerFleet}
use gobehost_operator.Webhook.Common.{
  FieldError, child, forbidden, error_if, validate_required, default_common,
}

-- Default
unfoldable pub default_fleet : GameServerFleet → GameServerFleet
unfolding default_common
default_fleet fleet = record fleet {
  spec = record (fleet.spec) {
    replicas = if eqb_ℤ fleet.spec.replicas (pos 0) then pos 1 else fleet.spec.replicas;
    strategy = record {
      type =
          if fleet.spec.strategy.type == ""
          then rolling_update_strategy_type
          else fleet.spec.strategy.type;
    };
    template = record (fleet.spec.template) { spec = default_common fleet.spec.template.spec };
  };
}

-- validateGameServerFleet
unfoldable pub validate_fleet : GameServerFleet → List FieldError
unfolding validate_required
validate_fleet fleet =
    error_if (not (eqb_ℤ fleet.spec.replicas (pos 1)))
      (forbidden (child "spec" ∷ child "replicas" ∷ []) "replicas must equal 1")
    ++ validate_required (child "spec" ∷ child "template" ∷ child "spec" ∷ [])
        fleet.spec.template.spec

-- ValidateCreate
unfoldable pub validate_fleet_create : GameServerFleet → List FieldError
unfolding validate_fleet
validate_fleet_create obj = validate_fleet obj

-- ValidateUpdate
unfoldable pub validate_fleet_update : GameServerFleet → GameServerFleet → List FieldError
unfolding validate_fleet
validate_fleet_update old_obj new_obj =
    validate_fleet new_obj
    ++ error_if (not (eqb_ℤ old_obj.spec.replicas new_obj.spec.replicas))
        (forbidden (child "spec" ∷ child "replicas" ∷ []) "replicas is immutable")

-- ValidateDelete
unfoldable pub validate_fleet_delete : GameServerFleet → List FieldError
validate_fleet_delete obj = []
