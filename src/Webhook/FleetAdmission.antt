-- ===== src/Webhook/FleetAdmission.antt =====
-- What fleet validation admits.
use gobehost_operator.Prelude.{◌≡◌, sym, ◌∙◌, ◌↔◌, not, [], ◌∷◌, arith}
use gobehost_operator.Prelude.Int.{ℤ, pos, eqb_ℤ, eqb_ℤ→eq}
use gobehost_operator.Api.{GameServerFleet}
use gobehost_operator.Webhook.Common.{FieldPath, FieldError, child, error_if}
use gobehost_operator.Webhook.Fleets.{validate_fleet, validate_fleet_create, validate_fleet_update}
use gobehost_operator.Webhook.Admission.{
  HasRequired, append-nil_left, required_sound, required_complete,
}

one_replica_iff : (n : ℤ) (e : FieldError) → (error_if (not (eqb_ℤ n (pos 1))) e ≡ []) ↔ (n ≡ pos 1)
one_replica_iff n e = ground (arith, eqb_ℤ→eq n (pos 1))

same_replicas_iff : (m n : ℤ) (e : FieldError) → (error_if (not (eqb_ℤ m n)) e ≡ []) ↔ (m ≡ n)
same_replicas_iff m n e = ground (arith, eqb_ℤ→eq m n)

abbrev template_path : FieldPath
template_path = child "spec" ∷ child "template" ∷ child "spec" ∷ []

-- Creation of a fleet is admitted exactly for one replica and a template with all required fields.
pub validate_fleet_iff :
    (fleet : GameServerFleet)
    → (validate_fleet fleet ≡ [])
      ↔ ((fleet.spec.replicas ≡ pos 1) × HasRequired fleet.spec.template.spec)
unfolding validate_fleet
validate_fleet_iff fleet = (
  λ h.
      let parts = append-nil_left _ _ h in
      ((one_replica_iff _ _).0 parts.0, required_sound template_path _ parts.1),
  λ v. rw ((one_replica_iff _ _).1 v.0) (required_complete template_path _ v.1),
)

-- From a fleet that was admitted, an update is admitted exactly when the new fleet could be created:
-- the replicas stay 1, and the test of their immutability rejects nothing more.
pub validate_fleet_update_iff :
    (old_fleet new_fleet : GameServerFleet)
    → validate_fleet_create old_fleet ≡ []
    → (validate_fleet_update old_fleet new_fleet ≡ []) ↔ (validate_fleet_create new_fleet ≡ [])
unfolding validate_fleet_create validate_fleet_update
validate_fleet_update_iff old_fleet new_fleet h = (
  λ u. (append-nil_left _ _ u).0,
  λ c. rw c (
      (same_replicas_iff _ _ _).1
        (((validate_fleet_iff old_fleet).0 h).0 ∙ sym ((validate_fleet_iff new_fleet).0 c).0)),
)
