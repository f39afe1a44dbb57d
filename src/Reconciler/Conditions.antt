-- ===== src/Reconciler/Conditions.antt =====
-- internal/reconciler/status.go, and the condition setters of the fleet and backup controllers.
use gobehost_operator.Prelude.{
  ◌≡◌, refl, ℕ, Bool, true, false, not, String, ◌<>◌, List, [], ◌∷◌, ◌==◌, if◌then◌else◌, itoa,
}
use gobehost_operator.Kube.{
  Time, ConditionStatus, condition_true, condition_false, Condition, ServicePort, Ingress, Service,
}
use gobehost_operator.Api.{
  GameServerPhase, PortSpec, PortInfo, GameServer, GameServerFleet, GameServerBackup,
}

-- The loop of the three setters: replace the first condition of the type, or append.
unfoldable pub put_condition : Condition → List Condition → List Condition
put_condition cond [] = cond ∷ []
put_condition cond (c ∷ cs) =
    let rest = put_condition cond cs in if c.type == cond.type then cond ∷ cs else c ∷ rest

abbrev pub new_condition : Time → ℕ → String → ConditionStatus → String → String → Condition
new_condition now observed cond_type status reason message = record {
  type = cond_type;
  status = status;
  reason = reason;
  message = message;
  observed_generation = observed;
  last_transition_time = now;
}

-- `now` is the reading of metav1.Now().
unfoldable pub set_condition :
    Time → GameServer → String → ConditionStatus → String → String → GameServer
set_condition now gs cond_type status reason message = record gs {
  status = record (gs.status) {
    conditions =
        put_condition
          (new_condition now gs.status.observed_generation cond_type status reason message)
          gs.status.conditions;
  };
}

unfoldable pub set_fleet_condition :
    Time → GameServerFleet → String → ConditionStatus → String → String → GameServerFleet
set_fleet_condition now fleet cond_type status reason message = record fleet {
  status = record (fleet.status) {
    conditions =
        put_condition
          (new_condition now fleet.status.observed_generation cond_type status reason message)
          fleet.status.conditions;
  };
}

unfoldable pub set_backup_condition :
    Time → GameServerBackup → String → ConditionStatus → String → String → GameServerBackup
set_backup_condition now backup cond_type status reason message = record backup {
  status = record (backup.status) {
    conditions =
        put_condition
          (new_condition now backup.status.observed_generation cond_type status reason message)
          backup.status.conditions;
  };
}

abbrev ready_status : Bool → ConditionStatus
ready_status true = condition_true
ready_status false = condition_false

unfoldable pub set_ready : Time → GameServer → Bool → String → String → GameServer
unfolding set_condition
set_ready now gs ready reason message =
    let gs' = set_condition now gs "Ready" (ready_status ready) reason message in
    record gs' { status = record (gs'.status) { ready = ready } }

unfoldable pub set_phase : GameServer → GameServerPhase → GameServer
set_phase gs phase = record gs { status = record (gs.status) { phase = phase } }

abbrev pub ingress_address : Ingress → String
ingress_address ing =
    if not (ing.ip == "") then ing.ip else if not (ing.hostname == "") then ing.hostname else ""

-- The endpoint: the address with the first port of the spec.
endpoint_of : String → List PortSpec → String
endpoint_of address [] = ""
endpoint_of address (p ∷ _) = if not (address == "") then address <> (":" <> itoa p.port) else ""

unfoldable pub port_infos : List ServicePort → List PortInfo
port_infos [] = []
port_infos (p ∷ ps) = record { name = p.name; port = p.port; protocol = p.protocol } ∷ port_infos ps

address_from : GameServer → Service → List Ingress → GameServer
unfolding endpoint_of port_infos
address_from gs svc [] = record gs {
  status = record (gs.status) { address = ""; endpoint = ""; ports = [] };
}
address_from gs svc (ing ∷ _) = record gs {
  status = record (gs.status) {
    address = ingress_address ing;
    endpoint = endpoint_of (ingress_address ing) gs.spec.network.ports;
    ports = port_infos svc.ports;
  };
}

unfoldable pub update_address : GameServer → Service → GameServer
unfolding address_from
update_address gs svc = address_from gs svc svc.ingress

address_from-phase :
    (gs : GameServer) (svc : Service) (ingress : List Ingress)
    → (address_from gs svc ingress).status.phase ≡ gs.status.phase
unfolding address_from
address_from-phase gs svc [] = refl
address_from-phase gs svc (ing ∷ _) = refl

-- The address leaves the phase alone.
pub update_address-phase :
    (gs : GameServer) (svc : Service) → (update_address gs svc).status.phase ≡ gs.status.phase
unfolding update_address
update_address-phase gs svc = address_from-phase gs svc svc.ingress

address_from-meta :
    (gs : GameServer) (svc : Service) (ingress : List Ingress)
    → (address_from gs svc ingress).meta ≡ gs.meta
unfolding address_from
address_from-meta gs svc [] = refl
address_from-meta gs svc (ing ∷ _) = refl

pub update_address-meta : (gs : GameServer) (svc : Service) → (update_address gs svc).meta ≡ gs.meta
unfolding update_address
update_address-meta gs svc = address_from-meta gs svc svc.ingress
