-- ===== src/Webhook/Admission.antt =====
-- What GameServer validation admits, and that defaulting keeps it.
use gobehost_operator.Prelude.{
  ℕ, suc, ◌≡◌, refl, ◌≢◌, ◌↔◌, Bool, true, false, not, String, List, [], ◌∷◌, ◌++◌, Option, none,
  some, arith, ◌==◌, eq_iff, All,
}
use gobehost_operator.Prelude.Int.{ℤ, pos, eqb_ℤ→eq, ◌≤ℤ◌}
use gobehost_operator.Api.{PortSpec, GameServerSpec, GameServer}
use gobehost_operator.Webhook.Common.{
  FieldPath, FieldError, child, index, error_if, validate_required,
}
use gobehost_operator.Webhook.GameServers.{
  out_of_range, ports_path, port_errors, validate_ports, validate_game_server, validate_create,
  validate_update,
}

-- 1 ≤ v ≤ 65535
abbrev pub InRange : ℤ → Type 0
InRange v = (pos 1 ≤ℤ v) × (v ≤ℤ pos 65535)

abbrev pub TargetInRange : Option ℤ → Type 0
TargetInRange none = Unit
TargetInRange (some t) = InRange t

abbrev pub IsPort : PortSpec → Type 0
IsPort p = InRange p.port × TargetInRange p.target_port

-- The fields that a GameServerSpec must have.
pub record HasRequired (spec : GameServerSpec) : Type 0 where
  pub type : spec.game.type ≢ ""
  pub version : spec.game.version ≢ ""
  pub image : spec.runtime.image ≢ ""
  pub ports : spec.network.ports ≢ []
  pub size : spec.storage.size ≢ pos 0

pub append-nil_left : (xs ys : List FieldError) → xs ++ ys ≡ [] → (xs ≡ []) × (ys ≡ [])
append-nil_left [] ys h = (refl, h)
append-nil_left (x ∷ xs) ys h = cc

error_if-nil : (b : Bool) (e : FieldError) → error_if b e ≡ [] → b ≡ false
error_if-nil true e h = cc
error_if-nil false e h = refl

range_sound : (v : ℤ) → out_of_range v ≡ false → InRange v
range_sound v h = ground arith

range_complete : (v : ℤ) → InRange v → out_of_range v ≡ false
range_complete v h = ground arith

IsPort-sound : (path : FieldPath) (p : PortSpec) → port_errors path p ≡ [] → IsPort p
unfolding port_errors
IsPort-sound path p h = ground arith

ports_sound : (i : ℕ) (ps : List PortSpec) → validate_ports i ps ≡ [] → All IsPort ps
unfolding validate_ports
ports_sound i [] h = tt
ports_sound i (p ∷ ps) h =
    let parts =
      append-nil_left (port_errors (ports_path ++ index i ∷ []) p) (validate_ports (suc i) ps) h in
    (IsPort-sound (ports_path ++ index i ∷ []) p parts.0, ports_sound (suc i) ps parts.1)

pub required_sound :
    (path : FieldPath) (spec : GameServerSpec) → validate_required path spec ≡ [] → HasRequired spec
unfolding validate_required
required_sound path spec h = ground (
  arith,
  eq_iff spec.game.type "",
  eq_iff spec.game.version "",
  eq_iff spec.runtime.image "",
  eqb_ℤ→eq spec.storage.size (pos 0),
)

port_complete : (path : FieldPath) (p : PortSpec) → IsPort p → port_errors path p ≡ []
unfolding port_errors
port_complete path p h = ground arith

ports_complete : (i : ℕ) (ps : List PortSpec) → All IsPort ps → validate_ports i ps ≡ []
unfolding validate_ports
ports_complete i [] h = refl
ports_complete i (p ∷ ps) h =
    rw (port_complete (ports_path ++ index i ∷ []) p h.0, ports_complete (suc i) ps h.1)

pub required_complete :
    (path : FieldPath) (spec : GameServerSpec) → HasRequired spec → validate_required path spec ≡ []
unfolding validate_required
required_complete path spec h = ground (
  arith,
  eq_iff spec.game.type "",
  eq_iff spec.game.version "",
  eq_iff spec.runtime.image "",
  eqb_ℤ→eq spec.storage.size (pos 0),
)

-- A GameServer that creation may admit.
pub record IsAdmissible (gs : GameServer) : Type 0 where
  pub required : HasRequired gs.spec
  pub in_range : All IsPort gs.spec.network.ports

IsAdmissible-iff : (gs : GameServer) → (validate_game_server gs ≡ []) ↔ IsAdmissible gs
unfolding validate_game_server
IsAdmissible-iff gs = (
  λ h.
      let parts =
        append-nil_left (validate_required (child "spec" ∷ []) gs.spec)
          (validate_ports 0 gs.spec.network.ports) h in
      record {
        required = required_sound (child "spec" ∷ []) gs.spec parts.0;
        in_range = ports_sound 0 gs.spec.network.ports parts.1;
      },
  λ v. rw (
    required_complete (child "spec" ∷ []) gs.spec v.required,
    ports_complete 0 gs.spec.network.ports v.in_range,
  ),
)

-- Creation is admitted exactly for a GameServer with a type, a version, an image, a storage size
-- and at least one port, whose ports and target ports all lie in 1..65535.
pub validate_create_iff : (gs : GameServer) → (validate_create gs ≡ []) ↔ IsAdmissible gs
unfolding validate_create
validate_create_iff gs = IsAdmissible-iff gs

immutable_type_iff : (a b : String) (e : FieldError) → (error_if (not (a == b)) e ≡ []) ↔ (a ≡ b)
immutable_type_iff a b e = ground (arith, eq_iff a b)

-- An update is admitted exactly when the new object could be created and the game type is the old one.
pub validate_update_iff :
    (old_gs new_gs : GameServer)
    → (validate_update old_gs new_gs ≡ [])
      ↔ (IsAdmissible new_gs × (old_gs.spec.game.type ≡ new_gs.spec.game.type))
unfolding validate_update
validate_update_iff old_gs new_gs = (
  λ h.
      let parts = append-nil_left (validate_game_server new_gs) _ h in
      ((IsAdmissible-iff new_gs).0 parts.0, (immutable_type_iff _ _ _).0 parts.1),
  λ v. rw ((IsAdmissible-iff new_gs).1 v.0) ((immutable_type_iff _ _ _).1 v.1),
)
