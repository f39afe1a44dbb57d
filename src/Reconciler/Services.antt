-- ===== src/Reconciler/Services.antt =====
-- internal/reconciler/service.go and fleetservice.go
use gobehost_operator.Prelude.{◌<>◌, List, [], ◌∷◌, Option, none, some, StringMap}
use gobehost_operator.Prelude.Int.{ℤ}
use gobehost_operator.Kube.{no_meta, ServicePort, Service}
use gobehost_operator.Api.{PortSpec, GameServer, GameServerFleet}

unfoldable pub game_server_labels : GameServer → StringMap
game_server_labels gs =
    ("app.kubernetes.io/name", "gameserver")
    ∷ ("app.kubernetes.io/instance", gs.meta.name)
    ∷ ("app.kubernetes.io/managed-by", "gobehost-operator")
    ∷ ("games.gobehost.com/game-type", gs.spec.game.type)
    ∷ ("games.gobehost.com/game-id", gs.meta.name)
    ∷ []

unfoldable pub fleet_labels : GameServerFleet → StringMap
fleet_labels fleet =
    ("app.kubernetes.io/name", "gameserverfleet")
    ∷ ("app.kubernetes.io/instance", fleet.meta.name)
    ∷ ("app.kubernetes.io/managed-by", "gobehost-operator")
    ∷ ("games.gobehost.com/fleet-name", fleet.meta.name)
    ∷ []

-- The port is its own target until `targetPort` overrides it.
override_target : ServicePort → Option ℤ → ServicePort
override_target sp none = sp
override_target sp (some t) = record sp { target_port = t }

-- The body of the loop that BuildService, BuildHeadlessService and BuildFleetService share.
unfoldable pub service_port : PortSpec → ServicePort
unfolding override_target
service_port p =
    override_target
      (record { name = p.name; port = p.port; target_port = p.port; protocol = p.protocol })
      p.target_port

unfoldable pub service_ports : List PortSpec → List ServicePort
unfolding service_port
service_ports [] = []
service_ports (p ∷ ps) = service_port p ∷ service_ports ps

unfoldable pub build_service : GameServer → Service
unfolding game_server_labels service_ports
build_service gs = record {
  meta = record no_meta {
    name = gs.meta.name;
    namespace = gs.meta.namespace;
    labels = game_server_labels gs;
    annotations = gs.spec.network.annotations;
  };
  type = gs.spec.network.service_type;
  cluster_ip = "";
  selector = game_server_labels gs;
  ports = service_ports gs.spec.network.ports;
  ingress = [];
}

unfoldable pub build_headless_service : GameServer → Service
unfolding game_server_labels service_ports
build_headless_service gs = record {
  meta = record no_meta {
    name = gs.meta.name <> "-headless";
    namespace = gs.meta.namespace;
    labels = game_server_labels gs;
  };
  type = "ClusterIP";
  cluster_ip = "None";
  selector = game_server_labels gs;
  ports = service_ports gs.spec.network.ports;
  ingress = [];
}

unfoldable pub build_fleet_service : GameServerFleet → GameServer → Service
unfolding game_server_labels fleet_labels service_ports
build_fleet_service fleet gs = record {
  meta = record no_meta {
    name = fleet.meta.name;
    namespace = fleet.meta.namespace;
    labels = fleet_labels fleet;
    annotations = gs.spec.network.annotations;
  };
  type = gs.spec.network.service_type;
  cluster_ip = "";
  selector = game_server_labels gs;
  ports = service_ports gs.spec.network.ports;
  ingress = [];
}
