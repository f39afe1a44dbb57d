-- ===== src/Tests/Samples.antt =====
-- Objects and a server to run the model on.
use gobehost_operator.Prelude.{true, String, List, [], ◌∷◌, none, some}
use gobehost_operator.Prelude.Int.{pos}
use gobehost_operator.Kube.{ObjectMeta, no_meta}
use gobehost_operator.Api.{
  running, PortSpec, GameServerSpec, GameServer, GracefulShutdownSpec, fleet_unset, GameServerFleet,
}
use gobehost_operator.Cluster.{not_found, ok, err, Api}

abbrev pub meta_named : String → ObjectMeta
meta_named name = record no_meta { name = name; namespace = "games"; generation = 2 }

abbrev pub sample_port : PortSpec
sample_port = record { name = "game"; port = pos 25565; target_port = none; protocol = "" }

abbrev pub sample_spec : GameServerSpec
sample_spec = record {
  game = record { type = "minecraft"; version = "1.21"; profile = "paper"; mode = "" };
  runtime = record {
    image = "itzg/minecraft-server";
    image_pull_policy = "";
    command = [];
    args = [];
    env = record { name = "RCON_PASSWORD"; value = "secret"; value_from = none } ∷ [];
    env_from = [];
  };
  resources = "";
  storage = record { size = pos 1024; storage_class = none; access_modes = [] };
  network = record { ports = sample_port ∷ []; service_type = ""; hostname = ""; annotations = [] };
  server = none;
  scheduling = none;
  security = none;
}

abbrev pub server_named : String → GameServer
server_named name = record {
  meta = meta_named name;
  spec = sample_spec;
  status = record {
    conditions = [];
    phase = running;
    ready = true;
    endpoint = "";
    address = "";
    ports = [];
    player_count = none;
    observed_generation = 1;
  };
}

abbrev pub sample_server : GameServer
sample_server = server_named "lobby-gs"

abbrev pub sample_fleet : GameServerFleet
sample_fleet = record {
  meta = meta_named "lobby";
  spec = record {
    replicas = pos 1;
    strategy = record { type = "" };
    graceful_shutdown = none;
    template = record { meta = no_meta; spec = sample_spec };
  };
  status = record {
    phase = fleet_unset;
    observed_generation = 0;
    ready_replicas = 0;
    conditions = [];
    current_game_server = "lobby-gs";
    updated_game_server = "";
    history = [];
  };
}

abbrev pub warning : GracefulShutdownSpec
warning = record { enabled = true; countdown_seconds = pos 3; rcon_port = pos 0 }

-- A server that lists the given GameServers, finds nothing else and stores what it is sent.
abbrev pub server_with : List GameServer → Api
server_with items = record {
  now = λ log. 7;
  get_server = λ log k. err not_found;
  get_fleet = λ log k. err not_found;
  get_backup = λ log k. err not_found;
  get_stateful_set = λ log k. err not_found;
  get_service = λ log k. err not_found;
  get_pvc = λ log k. err not_found;
  get_job = λ log k. err not_found;
  get_cron_job = λ log k. err not_found;
  get_secret = λ log k. err not_found;
  get_config_map = λ log k. err not_found;
  list_servers = λ log n l. ok items;
  list_jobs = λ log n l. ok [];
  create_server = λ log x. ok x;
  update_server = λ log x. ok x;
  patch_server = λ log x. ok x;
  delete_server = λ log x. ok tt;
  update_server_status = λ log x. ok x;
  update_fleet = λ log x. ok x;
  update_fleet_status = λ log x. ok x;
  update_backup = λ log x. ok x;
  update_backup_status = λ log x. ok x;
  apply_service = λ log x f. ok (f x);
  apply_stateful_set = λ log x f. ok x;
  apply_cron_job = λ log x f. ok (f x);
  delete_service = λ log x. ok tt;
  update_stateful_set = λ log x. ok x;
  create_cron_job = λ log x. ok x;
  create_job = λ log x. ok x;
  send_command = λ log h p w c t. ok "";
  set_controller_reference = λ owner m. some m;
  quote = λ s. s;
  marshal = λ spec. 123 ∷ 125 ∷ [];
}
