-- ===== src/Webhook/Defaults.antt =====
-- Defaulting of GameServers: what it fills in, that it settles, and that it keeps admission.
use gobehost_operator.Prelude.{
  ◌≡◌, refl, ◌≢◌, List, [], ◌∷◌, Option, none, some, arith, eq_iff, All,
}
use gobehost_operator.Api.{PortSpec, SecuritySpec, GameServerSpec, GameServer, GameServerFleet}
use gobehost_operator.Webhook.Common.{default_common}
use gobehost_operator.Webhook.GameServers.{
  default_port, default_ports, default_security, default_game_server, validate_create,
}
use gobehost_operator.Webhook.Fleets.{default_fleet}
use gobehost_operator.Webhook.Admission.{IsPort, IsAdmissible, validate_create_iff}

default_port_idem : (p : PortSpec) → default_port (default_port p) ≡ default_port p
unfolding default_port
default_port_idem p = ground (arith, eq_iff p.protocol "")

default_ports_idem : (ps : List PortSpec) → default_ports (default_ports ps) ≡ default_ports ps
unfolding default_ports
default_ports_idem [] = refl
default_ports_idem (p ∷ ps) = cc (default_port_idem p, default_ports_idem ps)

default_security_idem :
    (s : Option SecuritySpec) → default_security (default_security s) ≡ default_security s
unfolding default_security
default_security_idem none = refl
default_security_idem (some s) = ground (arith, eq_iff s.seccomp_profile "")

default_common_idem :
    (spec : GameServerSpec) → default_common (default_common spec) ≡ default_common spec
unfolding default_common
default_common_idem spec =
    ground (arith, eq_iff spec.runtime.image_pull_policy "", eq_iff spec.network.service_type "")

-- A second pass of the defaulter of GameServers changes nothing.
pub default_game_server_idem :
    (gs : GameServer) → default_game_server (default_game_server gs) ≡ default_game_server gs
unfolding default_game_server
default_game_server_idem gs = ground (
  arith,
  default_ports_idem gs.spec.network.ports,
  default_security_idem gs.spec.security,
  eq_iff gs.spec.runtime.image_pull_policy "",
  eq_iff gs.spec.network.service_type "",
)

-- A second pass of the fleet's defaulter changes nothing.
pub default_fleet_idem :
    (fleet : GameServerFleet) → default_fleet (default_fleet fleet) ≡ default_fleet fleet
unfolding default_fleet
default_fleet_idem fleet = ground (
  arith,
  eq_iff fleet.spec.strategy.type "",
  eq_iff fleet.spec.template.spec.runtime.image_pull_policy "",
  eq_iff fleet.spec.template.spec.network.service_type "",
)

default_port-IsPort : (p : PortSpec) → IsPort p → IsPort (default_port p)
unfolding default_port
default_port-IsPort p h = ground arith

default_ports-IsPort : (ps : List PortSpec) → All IsPort ps → All IsPort (default_ports ps)
unfolding default_ports
default_ports-IsPort [] h = tt
default_ports-IsPort (p ∷ ps) h = (default_port-IsPort p h.0, default_ports-IsPort ps h.1)

default_ports-ne-nil : (ps : List PortSpec) → ps ≢ [] → default_ports ps ≢ []
unfolding default_ports
default_ports-ne-nil [] h = h
default_ports-ne-nil (p ∷ ps) h = λ e. cc

default-IsAdmissible : (gs : GameServer) → IsAdmissible gs → IsAdmissible (default_game_server gs)
unfolding default_game_server default_common
default-IsAdmissible gs v = record {
  required = record {
    type = v.required.type;
    version = v.required.version;
    image = v.required.image;
    ports = default_ports-ne-nil gs.spec.network.ports v.required.ports;
    size = v.required.size;
  };
  in_range = default_ports-IsPort gs.spec.network.ports v.in_range;
}

-- A GameServer that creation admits is still admitted after defaulting.
pub default-validate_create :
    (gs : GameServer) → validate_create gs ≡ [] → validate_create (default_game_server gs) ≡ []
default-validate_create gs h =
    (validate_create_iff (default_game_server gs)).1
      (default-IsAdmissible gs ((validate_create_iff gs).0 h))
