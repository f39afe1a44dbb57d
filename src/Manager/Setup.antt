-- ===== src/Manager/Setup.antt =====
-- cmd/main.go: the steps of main after the flags, each of which may fail and end the process.
use gobehost_operator.Prelude.{Bool, not, String, List, [], ◌∷◌, ◌==◌, if◌then◌else◌}
use gobehost_operator.Manager.Options.{Flags, ManagerOptions, manager_options}

-- schema.GroupVersion
pub record GroupVersion : Type 0 where
  pub group : String
  pub version : String

abbrev pub scheme_group_version : GroupVersion
scheme_group_version = record { group = "games.gobehost.com"; version = "v1alpha1" }

-- A type of object that the operator's scheme knows.
pub data Kind : Type 0 where
  game_server game_server_fleet game_server_backup : Kind
  stateful_set service persistent_volume_claim cron_job : Kind

-- What SetupWithManager asks of the builder: For, Owns and Named.
pub record Controller : Type 0 where
  pub kind : Kind
  pub owns : List Kind
  pub name : String

abbrev pub game_server_controller : Controller
game_server_controller = record {
  kind = game_server;
  owns = stateful_set ∷ service ∷ persistent_volume_claim ∷ [];
  name = "gameserver";
}

abbrev pub game_server_fleet_controller : Controller
game_server_fleet_controller = record {
  kind = game_server_fleet;
  owns = game_server ∷ service ∷ [];
  name = "gameserverfleet";
}

abbrev pub game_server_backup_controller : Controller
game_server_backup_controller = record {
  kind = game_server_backup;
  owns = cron_job ∷ [];
  name = "gameserverbackup";
}

-- A call that main makes of the library; `register_webhook` is of a validator and a defaulter.
pub data Step : Type 0 where
  new_manager : ManagerOptions → Step
  register : Controller → Step
  -- the backup controller with its BackupConfigNamespace
  register_for : Controller → String → Step
  register_webhook : Kind → Step
  add_healthz_check add_readyz_check start : Step

-- os.Exit(1), or the end of main
pub data Exit : Type 0 where
  exit_failure end_of_main : Exit

abbrev pub setup_game_server_webhook : Step
setup_game_server_webhook = register_webhook game_server

abbrev pub setup_game_server_fleet_webhook : Step
setup_game_server_fleet_webhook = register_webhook game_server_fleet

-- `fails` is the library: whether the step returns an error after the steps made before it, the
-- latest first.
module _ (fails : List Step → Step → Bool) where
  -- `if err := step; err != nil { os.Exit(1) }` and what follows it
  abbrev pub attempt : Step → (List Step → Exit × List Step) → List Step → Exit × List Step
  attempt step rest made =
      if fails made step then (exit_failure, step ∷ made) else rest (step ∷ made)

  -- `if os.Getenv("ENABLE_WEBHOOKS") != "false" { … }` and what follows it
  abbrev pub attempt_if_webhooks :
      String → Step → (List Step → Exit × List Step) → List Step → Exit × List Step
  attempt_if_webhooks enable_webhooks step rest made =
      if not (enable_webhooks == "false") then attempt step rest made else rest made

  -- main from ctrl.NewManager, with the flags parsed and the value of ENABLE_WEBHOOKS
  unfoldable pub main : Flags → String → List Step → Exit × List Step
  unfolding manager_options
  main flags enable_webhooks = attempt (new_manager (manager_options flags)) (
      attempt (register game_server_controller) (
        attempt_if_webhooks enable_webhooks setup_game_server_webhook (
          attempt (register game_server_fleet_controller) (
            attempt_if_webhooks enable_webhooks setup_game_server_fleet_webhook (
              attempt (register_for game_server_backup_controller flags.backup_config_namespace) (
                attempt add_healthz_check
                  (attempt add_readyz_check (attempt start (λ made. (end_of_main, made))))))))))
