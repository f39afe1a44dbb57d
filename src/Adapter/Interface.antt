-- ===== src/Adapter/Interface.antt =====
-- internal/adapter/adapter.go and registry.go
use gobehost_operator.Prelude.{String, List, map, Option, lookup, insert}
use gobehost_operator.Kube.{EnvVar, Probe, PodSecurityContext}
use gobehost_operator.Api.{GameServer}

-- A GameAdapter value is its methods.
pub record GameAdapter : Type 0 where
  pub name : String
  pub env : GameServer → List EnvVar
  pub command : GameServer → List String
  pub args : GameServer → List String
  -- readiness and liveness, in this order
  pub probes : GameServer → Option Probe × Option Probe
  pub data_path : GameServer → String
  pub default_security_context : Option PodSecurityContext

-- The package's variable `registry`, passed to its readers.
abbrev pub Registry : Type 0
Registry = List (String × GameAdapter)

unfoldable pub register : GameAdapter → Registry → Registry
register a registry = insert a.name a registry

-- `none` is the error "no adapter registered".
unfoldable pub get_adapter : Registry → GameServer → Option GameAdapter
unfolding lookup
get_adapter registry gs = lookup gs.spec.game.type registry

-- Go's iteration order over a map is not fixed; this is one such order.
unfoldable pub known_games : Registry → List String
known_games registry = map (λ e. e.0) registry
