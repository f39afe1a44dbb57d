-- ===== src/Tests/Exposures.antt =====
-- The objects of an admitted GameServer, at a concrete one.
use gobehost_operator.Prelude.{◌≡◌, ◌≢◌, refl, [], ◌∷◌, map, none, some, insert, All}
use gobehost_operator.Kube.{StatefulSet}
use gobehost_operator.Adapter.{registry, minecraft_adapter}
use gobehost_operator.Reconciler.{
  build_service, build_headless_service, build_fleet_service, build_stateful_set, stateful_set_of,
}
use gobehost_operator.Webhook.{default_game_server, validate_create}
use gobehost_operator.Webhook.Exposure.{IsExposed, admitted_ports}
use gobehost_operator.Webhook.Hardening.{hardened_container, hardened_pod, built_hardened}
use gobehost_operator.Tests.Samples.{sample_server, sample_fleet}

admitted_ports_example :
    All IsExposed (build_service (default_game_server sample_server)).ports
    × ((build_service (default_game_server sample_server)).ports ≢ [])
    × ((build_headless_service (default_game_server sample_server)).ports
        ≡ (build_service (default_game_server sample_server)).ports)
    × ((build_fleet_service sample_fleet (default_game_server sample_server)).ports
        ≡ (build_service (default_game_server sample_server)).ports)
unfolding validate_create default_game_server
admitted_ports_example = admitted_ports sample_fleet sample_server refl

abbrev built : StatefulSet
built = stateful_set_of (default_game_server sample_server) minecraft_adapter

built_hardened_example :
    (map (λ c. c.security_context) built.template.spec.containers
      ≡ some (hardened_container none) ∷ [])
    × (built.template.spec.security_context ≡ some (hardened_pod none))
unfolding build_stateful_set registry insert default_game_server
built_hardened_example = built_hardened registry sample_server built refl
