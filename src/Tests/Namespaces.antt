-- ===== src/Tests/Namespaces.antt =====
-- The theorem on namespaces, over a server that has every object that it is asked for.
use gobehost_operator.Prelude.{[], ◌∷◌, none, String}
use gobehost_operator.Kube.{Key}
use gobehost_operator.Api.{
  game_server_finalizer, game_server_fleet_finalizer, game_server_backup_finalizer, GameServer,
  GameServerFleet, GameServerBackup,
}
use gobehost_operator.Cluster.{Api, ok}
use gobehost_operator.Tests.Samples.{sample_server, sample_fleet, server_with}
use gobehost_operator.Tests.Backups.{backup_with}

abbrev server_in : String → GameServer
server_in ns = record sample_server {
  meta = record (sample_server.meta) { namespace = ns; finalizers = game_server_finalizer ∷ [] };
}

abbrev fleet_in : String → GameServerFleet
fleet_in ns = record sample_fleet {
  meta = record (sample_fleet.meta) {
    namespace = ns;
    finalizers = game_server_fleet_finalizer ∷ [];
  };
}

abbrev backup_in : String → GameServerBackup
backup_in ns = record (backup_with none) {
  meta = record ((backup_with none).meta) {
    namespace = ns;
    finalizers = game_server_backup_finalizer ∷ [];
  };
}

abbrev housing : Api
housing = record (server_with []) {
  get_server = λ log key. ok (server_in key.namespace);
  get_fleet = λ log key. ok (fleet_in key.namespace);
  get_backup = λ log key. ok (backup_in key.namespace);
  list_servers = λ log n labels. ok (server_in n ∷ []);
  apply_service = λ log svc f.
      ok (record (f svc) { meta = record ((f svc).meta) { namespace = svc.meta.namespace } });
}

abbrev key : Key
key = record { namespace = "games"; name = "lobby" }
