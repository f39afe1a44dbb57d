-- ===== src/Enforced.antt =====
-- What the code may rely on since the schemas (api/v1alpha1/*_types.go) reject the rest.
use gobehost_operator.Prelude.{◌≡◌, ◌↔◌, String, [], arith, eq_iff, true}
use gobehost_operator.Prelude.Int.{pos, eqb_ℤ→eq}
use gobehost_operator.Api.{GameServerFleet, GameServerBackup}
use gobehost_operator.Api.Schema.{fleet_spec_fits, backup_spec_fits, target_fits}
use gobehost_operator.Cluster.{Log, Api}
use gobehost_operator.Webhook.{default_fleet, validate_fleet_create}
use gobehost_operator.Webhook.Admission.{HasRequired}
use gobehost_operator.Webhook.FleetAdmission.{validate_fleet_iff}
use gobehost_operator.Backup.{target, resolve_target}

one_replica :
    (fleet : GameServerFleet)
    → fleet_spec_fits fleet.spec ≡ true
    → (default_fleet fleet).spec.replicas ≡ pos 1
unfolding fleet_spec_fits default_fleet
one_replica fleet h = ground (arith, eqb_ℤ→eq fleet.spec.replicas (pos 1))

-- Of a fleet that fits the schema the webhook asks only for the required fields of its template.
pub validate_fleet_create-schema :
    (fleet : GameServerFleet)
    → fleet_spec_fits fleet.spec ≡ true
    → (validate_fleet_create (default_fleet fleet) ≡ [])
      ↔ HasRequired (default_fleet fleet).spec.template.spec
unfolding validate_fleet_create
validate_fleet_create-schema fleet h =
    let admitted = validate_fleet_iff (default_fleet fleet) in
    (λ a. (admitted.0 a).1, λ r. admitted.1 (one_replica fleet h, r))

-- The target of a backup that fits the schema is a GameServer, whatever kind the backup names: the
-- claim of another kind is never asked for.
pub resolve_target-kind :
    (api : Api) (backup : GameServerBackup) (kind name : String) (log : Log)
    → backup_spec_fits backup.spec ≡ true
    → (resolve_target api backup log).0 ≡ target kind name
    → kind ≡ "GameServer"
unfolding resolve_target backup_spec_fits target_fits
resolve_target-kind api backup kind name log fits h =
    ground (arith, eq_iff backup.spec.target_ref.kind "GameServer")
