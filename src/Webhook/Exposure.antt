-- ===== src/Webhook/Exposure.antt =====
-- From admission to the cluster: what holds of the objects built for a GameServer that the webhooks let
-- in.
use gobehost_operator.Prelude.{
  ◌≡◌, refl, ◌≢◌, List, [], ◌∷◌, arith, eq_iff, All, inl, inr, Option-cases,
}
use gobehost_operator.Kube.{ServicePort}
use gobehost_operator.Api.{PortSpec, GameServer, GameServerFleet}
use gobehost_operator.Reconciler.{
  service_port, service_ports, build_service, build_headless_service, build_fleet_service,
}
use gobehost_operator.Webhook.GameServers.{
  default_port, default_ports, default_game_server, validate_create,
}
use gobehost_operator.Webhook.Admission.{InRange, IsPort, validate_create_iff}

-- A port of a Service that Kubernetes accepts.
pub record IsExposed (sp : ServicePort) : Type 0 where
  pub port : InRange sp.port
  pub target : InRange sp.target_port
  pub protocol : sp.protocol ≢ ""

default_port-protocol : (p : PortSpec) → (default_port p).protocol ≢ ""
unfolding default_port
default_port-protocol p = ground (arith, eq_iff p.protocol "", eq_iff "TCP" "")

service_port-IsExposed : (p : PortSpec) → IsPort p → p.protocol ≢ "" → IsExposed (service_port p)
unfolding service_port
service_port-IsExposed p h named = elim (Option-cases p.target_port) [
  | inl e ↦ rw e (record { port = h.0; target = h.0; protocol = named })
  | inr (t, e) ↦ rw e (record { port = h.0; target = rw e at h.1; protocol = named })
]

service_ports-IsExposed :
    (ps : List PortSpec)
    → All IsPort (default_ports ps)
    → All IsExposed (service_ports (default_ports ps))
unfolding service_ports default_ports
service_ports-IsExposed [] h = tt
service_ports-IsExposed (p ∷ ps) h = (
  service_port-IsExposed (default_port p) h.0 (default_port-protocol p),
  service_ports-IsExposed ps h.1,
)

service_ports-ne-nil :
    (ps : List PortSpec) → default_ports ps ≢ [] → service_ports (default_ports ps) ≢ []
unfolding service_ports default_ports
service_ports-ne-nil [] h = λ e. h refl
service_ports-ne-nil (p ∷ ps) h = λ e. cc

-- If the GameServer as the defaulter leaves it is admitted, the Services built for it, its own, the
-- headless one and that of a fleet, have the same ports, at least one, each with its port and target
-- in 1..65535 and with a protocol.
pub admitted_ports :
    (fleet : GameServerFleet) (gs : GameServer)
    → validate_create (default_game_server gs) ≡ []
    → let served = default_game_server gs in
      All IsExposed (build_service served).ports
      × ((build_service served).ports ≢ [])
      × ((build_headless_service served).ports ≡ (build_service served).ports)
      × ((build_fleet_service fleet served).ports ≡ (build_service served).ports)
unfolding default_game_server build_service build_headless_service build_fleet_service
admitted_ports fleet gs h =
    let admissible = (validate_create_iff (default_game_server gs)).0 h in
    (
      service_ports-IsExposed gs.spec.network.ports admissible.in_range,
      service_ports-ne-nil gs.spec.network.ports admissible.required.ports,
      refl,
      refl,
    )
