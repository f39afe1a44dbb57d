-- ===== src/Fleet/Acceptance.antt =====
-- The fleet controller's GameServers before the webhooks: which of the objects that it sends are
-- admitted, given that the fleet itself was.
use gobehost_operator.Prelude.{
  ◌≡◌, refl, ◌≢◌, ◌↔◌, true, false, List, [], ◌∷◌, String, ℕ, arith, ◌==◌, All, get, eq_iff,
}
use gobehost_operator.Kube.{key_of}
use gobehost_operator.Api.{
  PortSpec, GameServerSpec, GameServer, GameServerFleet, template_hash_annotation,
}
use gobehost_operator.Api.Schema.{port_fits, ports_fit, network_fits}
use gobehost_operator.Cluster.{other_error, err, Call, Log, Api, failed_with}
use gobehost_operator.Webhook.{
  default_port, default_ports, default_game_server, validate_create, validate_update,
  validate_fleet_create, default_common,
}
use gobehost_operator.Webhook.Admission.{
  InRange, TargetInRange, IsPort, HasRequired, IsAdmissible, validate_create_iff,
  validate_update_iff,
}
use gobehost_operator.Webhook.FleetAdmission.{validate_fleet_iff}
use gobehost_operator.Fleet.Values.{compute_template_hash, build_game_server, apply_template}
use gobehost_operator.Fleet.Statuses.{is_failed}
use gobehost_operator.Fleet.Rollout.{send_graceful_shutdown, start_spec_update, steady}

-- The target ports of a template are in 1..65535, where they are given.
abbrev pub TargetsInRange : GameServerFleet → Type 0
TargetsInRange fleet = All (λ p. TargetInRange p.target_port) fleet.spec.template.spec.network.ports

port_fits-InRange : (p : PortSpec) → port_fits p ≡ true → InRange p.port
unfolding port_fits
port_fits-InRange p h = ground arith

default_port-IsPort_iff :
    (p : PortSpec) → port_fits p ≡ true → IsPort (default_port p) ↔ TargetInRange p.target_port
unfolding default_port
default_port-IsPort_iff p h = ground (arith, port_fits-InRange p h)

default_ports-IsPort_iff :
    (ps : List PortSpec)
    → ports_fit ps ≡ true
    → All IsPort (default_ports ps) ↔ All (λ p. TargetInRange p.target_port) ps
unfolding default_ports ports_fit
default_ports-IsPort_iff [] h = (λ a. a, λ a. a)
default_ports-IsPort_iff (p ∷ ps) h =
    let first = default_port-IsPort_iff p (ground arith) in
    let others = default_ports-IsPort_iff ps (ground arith) in
    (λ a. (first.0 a.0, others.0 a.1), λ a. (first.1 a.0, others.1 a.1))

default_ports-ne-nil : (ps : List PortSpec) → ps ≢ [] → default_ports ps ≢ []
unfolding default_ports
default_ports-ne-nil [] h = h
default_ports-ne-nil (p ∷ ps) h = λ e. cc

default-HasRequired :
    (gs : GameServer) → HasRequired gs.spec → HasRequired (default_game_server gs).spec
unfolding default_game_server default_common
default-HasRequired gs h = record {
  type = h.type;
  version = h.version;
  image = h.image;
  ports = default_ports-ne-nil gs.spec.network.ports h.ports;
  size = h.size;
}

-- With the template of an admitted fleet.
templated_iff :
    (fleet : GameServerFleet) (gs : GameServer)
    → validate_fleet_create fleet ≡ []
    → network_fits fleet.spec.template.spec.network ≡ true
    → gs.spec ≡ fleet.spec.template.spec
    → IsAdmissible (default_game_server gs) ↔ TargetsInRange fleet
unfolding validate_fleet_create network_fits default_game_server default_common
templated_iff fleet gs h fits e =
    let required : HasRequired (default_game_server gs).spec =
      default-HasRequired gs (rw e ((validate_fleet_iff fleet).0 h).1) in
    let ports : All IsPort (default_ports gs.spec.network.ports) ↔ TargetsInRange fleet =
      rw e (default_ports-IsPort_iff fleet.spec.template.spec.network.ports (ground arith)) in
    (λ a. ports.0 a.in_range, λ a. record { required = required; in_range = ports.1 a })

-- The GameServer that is created for a fleet which its webhook and its schema admitted is itself
-- admitted, after defaulting, exactly if the target ports of the template lie in 1..65535.
pub built_admitted_iff :
    (marshal : GameServerSpec → List ℕ) (fleet : GameServerFleet) (suffix : String)
    → validate_fleet_create fleet ≡ []
    → network_fits fleet.spec.template.spec.network ≡ true
    → (validate_create (default_game_server (build_game_server marshal fleet suffix)) ≡ [])
      ↔ TargetsInRange fleet
unfolding build_game_server
built_admitted_iff marshal fleet suffix h fits =
    let gs = build_game_server marshal fleet suffix in
    let admissible = validate_create_iff (default_game_server gs) in
    let ported = templated_iff fleet gs h fits refl in
    (λ a. ported.0 (admissible.0 a), λ a. admissible.1 (ported.1 a))

-- The in-place update of a GameServer to the template of an admitted fleet is itself admitted, after
-- defaulting, exactly if the target ports of the template lie in 1..65535 and its game type is that
-- of the GameServer.
pub updated_admitted_iff :
    (fleet : GameServerFleet) (gs : GameServer) (hash : String)
    → validate_fleet_create fleet ≡ []
    → network_fits fleet.spec.template.spec.network ≡ true
    → (validate_update gs (default_game_server (apply_template fleet hash gs)) ≡ [])
      ↔ (TargetsInRange fleet × (gs.spec.game.type ≡ fleet.spec.template.spec.game.type))
unfolding apply_template default_game_server default_common
updated_admitted_iff fleet gs hash h fits =
    let gs' = apply_template fleet hash gs in
    let admissible = validate_update_iff gs (default_game_server gs') in
    let ported = templated_iff fleet gs' h fits refl in
    (λ a. let (p, q) = admissible.0 a in (ported.0 p, q), λ a. admissible.1 (ported.1 a.0, a.1))

-- The API server asks the webhooks of GameServers: an update of the object that it holds is refused
-- where they refuse it.
abbrev pub AsksWebhooks : Api → GameServer → Type 0
AsksWebhooks api held =
    (log : Log) (sent : GameServer)
    → key_of sent.meta ≡ key_of held.meta
    → validate_update held (default_game_server sent) ≢ []
    → api.update_server log sent ≡ err other_error

apply_template-key :
    (fleet : GameServerFleet) (hash : String) (gs : GameServer)
    → key_of (apply_template fleet hash gs).meta ≡ key_of gs.meta
unfolding apply_template
apply_template-key fleet hash gs = refl

text_ne : (s t : String) → s ≢ t → (s == t) ≡ false
text_ne s t h = ground (arith, eq_iff s t)

-- Where the API server asks the webhooks and the template of an admitted fleet changed the game type, each
-- pass over a GameServer of an earlier template warns the players, sends the update and ends in an
-- error: nothing else is called, so that the next pass does the same.
pub steady-retyped :
    (api : Api) (fleet : GameServerFleet) (gs : GameServer) (log : Log)
    → AsksWebhooks api gs
    → validate_fleet_create fleet ≡ []
    → network_fits fleet.spec.template.spec.network ≡ true
    → gs.spec.game.type ≢ fleet.spec.template.spec.game.type
    → is_failed gs.status.phase ≡ false
    → get gs.meta.annotations template_hash_annotation ≢ ""
    → get gs.meta.annotations template_hash_annotation
      ≢ compute_template_hash api.marshal fleet.spec.template
    → let hash = compute_template_hash api.marshal fleet.spec.template in
      steady api fleet gs log ≡ (
        failed_with other_error,
        Call.update_server (apply_template fleet hash gs)
            ∷ (send_graceful_shutdown api fleet.spec.graceful_shutdown gs log).1,
      )
unfolding steady start_spec_update
steady-retyped api fleet gs log asks h fits retyped sound marked stale =
    let hash = compute_template_hash api.marshal fleet.spec.template in
    let warned = (send_graceful_shutdown api fleet.spec.graceful_shutdown gs log).1 in
    let refused : api.update_server warned (apply_template fleet hash gs) ≡ err other_error =
      asks warned (apply_template fleet hash gs) (apply_template-key fleet hash gs)
        (λ e. retyped ((updated_admitted_iff fleet gs hash h fits).0 e).1) in
    rw (sound, text_ne _ _ marked, text_ne _ _ stale, refused) refl
