-- ===== src/Tests/Admissions.antt =====
-- A fleet's GameServers before the webhooks, at a template with a target port out of range and at one
-- of another game; the defaults of the schemas.
use gobehost_operator.Prelude.{
  ℕ, ◌≡◌, refl, ◌≢◌, ◌↔◌, List, [], ◌∷◌, some, none, arith, eq_iff, get, hex8,
}
use gobehost_operator.Prelude.Int.{pos}
use gobehost_operator.Api.{GameServerSpec, GameServer, GameServerFleet, template_hash_annotation}
use gobehost_operator.Api.Schema.{network_fits}
use gobehost_operator.Cluster.{Api, Call, Response, ok, err, other_error, failed_with}
use gobehost_operator.Webhook.{
  FieldError, validate_fleet_create, default_game_server, validate_create, validate_update,
}
use gobehost_operator.Reconciler.{build_cron_job, build_backup_on_delete_job}
use gobehost_operator.Backup.{no_config, wants_last_backup}
use gobehost_operator.Fleet.{
  build_game_server, apply_template, compute_template_hash, steady, send_graceful_shutdown,
}
use gobehost_operator.Fleet.Acceptance.{
  TargetsInRange, built_admitted_iff, AsksWebhooks, steady-retyped,
}
use gobehost_operator.Omitted.{
  with_schema_defaults, default_game_server-schema, with_backup_defaults, backup-schema,
}
use gobehost_operator.Tests.Samples.{
  sample_port, sample_spec, sample_server, sample_fleet, server_with, warning,
}
use gobehost_operator.Tests.Backups.{backup_with}

abbrev marshal : GameServerSpec → List ℕ
marshal spec = 123 ∷ 125 ∷ []

-- The template asks for a target port that no container has.
abbrev aiming_high : GameServerFleet
aiming_high = record sample_fleet {
  spec = record (sample_fleet.spec) {
    template = record (sample_fleet.spec.template) {
      spec = record sample_spec {
        network = record (sample_spec.network) {
          ports = record sample_port { target_port = some (pos 70000) } ∷ [];
        };
      };
    };
  };
}

built_admitted_iff_example :
    (validate_create (default_game_server (build_game_server marshal aiming_high "")) ≡ [])
    ↔ TargetsInRange aiming_high
unfolding validate_fleet_create network_fits
built_admitted_iff_example = built_admitted_iff marshal aiming_high "" refl refl

-- The template asks for another game, after a warning.
abbrev other_game : GameServerFleet
other_game = record sample_fleet {
  spec = record (sample_fleet.spec) {
    graceful_shutdown = some warning;
    template = record (sample_fleet.spec.template) {
      spec = record sample_spec { game = record (sample_spec.game) { type = "valheim" } };
    };
  };
}

abbrev marked : GameServer
marked = record sample_server {
  meta = record (sample_server.meta) { annotations = (template_hash_annotation, "old") ∷ [] };
}

abbrev answer : List FieldError → GameServer → Response GameServer
answer [] sent = ok sent
answer (e ∷ es) sent = err other_error

answer_refused :
    (errors : List FieldError) (sent : GameServer)
    → errors ≢ []
    → answer errors sent ≡ err other_error
answer_refused [] sent h = absurd (h refl)
answer_refused (e ∷ es) sent h = refl

-- A server that asks the webhook about each update.
abbrev asking : Api
asking = record (server_with []) {
  update_server = λ log sent. answer (validate_update marked (default_game_server sent)) sent;
}

asking_asks : AsksWebhooks asking marked
asking_asks log sent same refused =
    answer_refused (validate_update marked (default_game_server sent)) sent refused

is_marked : get marked.meta.annotations template_hash_annotation ≢ ""
unfolding get
is_marked = ground (arith, eq_iff "old" "")

is_stale :
    get marked.meta.annotations template_hash_annotation
    ≢ compute_template_hash asking.marshal other_game.spec.template
unfolding get compute_template_hash hex8
is_stale =
    ground (arith, eq_iff "old" (compute_template_hash asking.marshal other_game.spec.template))

steady-retyped_example : steady asking other_game marked [] ≡ (
  failed_with other_error,
  Call.update_server (
        apply_template other_game
          (compute_template_hash asking.marshal other_game.spec.template)
          marked)
      ∷ (send_graceful_shutdown asking (some warning) marked []).1,
)
unfolding validate_fleet_create network_fits
steady-retyped_example =
    steady-retyped asking other_game marked [] asking_asks refl refl
      (ground (arith, eq_iff "minecraft" "valheim")) refl is_marked is_stale

default_game_server-schema_example :
    default_game_server (with_schema_defaults sample_server) ≡ default_game_server sample_server
default_game_server-schema_example = default_game_server-schema sample_server

backup-schema_example :
    (build_cron_job
        (with_backup_defaults (backup_with none))
        no_config
        "GameServer"
        "lobby-gs"
        "data-lobby-gs-0"
      ≡ build_cron_job (backup_with none) no_config "GameServer" "lobby-gs" "data-lobby-gs-0")
    × (build_backup_on_delete_job
          (with_backup_defaults (backup_with none))
          no_config
          "GameServer"
          "lobby-gs"
          "data-lobby-gs-0"
        ≡ build_backup_on_delete_job
            (backup_with none)
            no_config
            "GameServer"
            "lobby-gs"
            "data-lobby-gs-0")
    × (wants_last_backup (with_backup_defaults (backup_with none)).spec.backup_on_delete
        ≡ wants_last_backup none)
backup-schema_example =
    backup-schema (backup_with none) no_config "GameServer" "lobby-gs" "data-lobby-gs-0"
