-- ===== src/Fleet/Rollout.antt =====
-- internal/controller/gameserverfleet_controller.go: the methods that call the API server.
use gobehost_operator.Prelude.{
  ℕ, zero, suc, ◌-◌, ◌&&◌, not, String, List, [], ◌∷◌, ◌++◌, Option, none, some, ◌==◌, leb,
  if◌then◌else◌, get,
}
use gobehost_operator.Prelude.Int.{ℤ}
use gobehost_operator.Api.{
  GameServer, GracefulShutdownSpec, game_server_fleet_finalizer, template_hash_annotation,
  GameServerFleet,
}
use gobehost_operator.Cluster.{
  other_error, ok, err, Api, M, pure, ◌>>=◌, ◌>>◌, sleep, now, send_command, create_server,
  update_server, patch_server, delete_server, update_fleet_status, apply_service, requeue_after,
  Outcome, done, failed_with, panicked, requeue_on_conflict, is_not_found,
}
use gobehost_operator.Reconciler.{build_fleet_service}
use gobehost_operator.Fleet.Values.{
  compute_template_hash, get_rcon_password, find_current, build_game_server, apply_template,
  annotate_hash,
}
use gobehost_operator.Fleet.Statuses.{
  fleet_requeue_interval, countdown_of, rcon_port_of, rcon_timeout, first_message,
  countdown_message, headless_host, mutate_fleet_service, is_failed, is_progressing, status_missing,
  synced, completed, started, created, replaced,
}

abbrev pub requeue_later : Outcome
requeue_later = done (requeue_after fleet_requeue_interval)

-- `patchedFleet`, the copy with the finalizer appended
abbrev pub with_finalizer : GameServerFleet → GameServerFleet
with_finalizer fleet = record fleet {
  meta = record (fleet.meta) {
    finalizers = fleet.meta.finalizers ++ game_server_fleet_finalizer ∷ [];
  };
}

module _ (api : Api) where
  -- The loop `for i := countdown - 1; i > 0; i--`, from its first i.
  unfoldable pub countdown_loop : String → ℤ → String → ℤ → ℕ → M (Unit {0})
  countdown_loop host port password timeout zero = pure tt
  countdown_loop host port password timeout (suc i) =
      let more = countdown_loop host port password timeout i in
      do
        sleep 1
        sent ← send_command api host port password (countdown_message (suc i)) timeout
        elim sent [ ok _ ↦ more | err _ ↦ pure tt ]

  unfoldable pub countdown : String → ℤ → String → ℤ → ℕ → M (Unit {0})
  unfolding countdown_loop
  countdown host port password timeout n = do
    sent ← send_command api host port password (first_message n) timeout
    elim sent [ ok _ ↦ countdown_loop host port password timeout (n - 1) | err _ ↦ pure tt ]

  -- sendGracefulShutdown
  unfoldable pub send_graceful_shutdown : Option GracefulShutdownSpec → GameServer → M (Unit {0})
  send_graceful_shutdown none gs = pure tt
  send_graceful_shutdown (some config) gs =
      if not config.enabled
      then pure tt
      else if get_rcon_password gs.spec.runtime.env == ""
      then pure tt
      else countdown (headless_host gs) (rcon_port_of config.rcon_port)
          (get_rcon_password gs.spec.runtime.env)
          (rcon_timeout (countdown_of config.countdown_seconds))
          (countdown_of config.countdown_seconds)

  unfoldable pub ensure_fleet_service : GameServerFleet → GameServer → M Outcome
  unfolding build_fleet_service mutate_fleet_service
  ensure_fleet_service fleet gs =
      let svc = build_fleet_service fleet gs in
      elim (api.set_controller_reference fleet.meta svc.meta) [
        | none ↦ pure (failed_with other_error)
        | some meta ↦ do
          applied ← apply_service api (record svc { meta = meta }) (mutate_fleet_service gs)
          elim applied [ ok _ ↦ pure requeue_later | err e ↦ pure (failed_with e) ]
      ]

  unfoldable pub create_game_server : GameServerFleet → M Outcome
  create_game_server fleet =
      let built = build_game_server api.marshal fleet "" in
      elim (api.set_controller_reference fleet.meta built.meta) [
        | none ↦ pure (failed_with other_error)
        | some meta ↦ do
          stored ← create_server api (record built { meta = meta })
          elim stored [
            | err e ↦ pure (failed_with e)
            | ok gs ↦ do
              t ← now api
              written ← update_fleet_status api (created t fleet gs)
              elim written [
                | err e ↦ pure (requeue_on_conflict e)
                | ok fleet' ↦ ensure_fleet_service fleet' gs
              ]
          ]
      ]

  unfoldable pub handle_failed : GameServerFleet → GameServer → M Outcome
  handle_failed fleet gs =
      let finish : M Outcome = do
        written ← update_fleet_status api (replaced fleet)
        elim written [ err e ↦ pure (requeue_on_conflict e) | ok _ ↦ pure requeue_later ]
      in do
        deleted ← delete_server api gs
        elim deleted [
          | ok _ ↦ finish
          | err e ↦ if is_not_found e then finish else pure (failed_with e)
        ]

  unfoldable pub start_spec_update : GameServerFleet → GameServer → String → M Outcome
  start_spec_update fleet gs hash = do
    send_graceful_shutdown fleet.spec.graceful_shutdown gs
    updated ← update_server api (apply_template fleet hash gs)
    elim updated [
      | err e ↦ pure (failed_with e)
      | ok _ ↦ do
        t ← now api
        written ← update_fleet_status api (started t fleet gs)
        elim written [ err e ↦ pure (requeue_on_conflict e) | ok _ ↦ pure requeue_later ]
    ]

  unfoldable pub complete_update : GameServerFleet → GameServer → M Outcome
  complete_update fleet gs = do
    t ← now api
    written ← update_fleet_status api (completed t fleet gs)
    elim written [
      | err e ↦ pure (requeue_on_conflict e)
      | ok fleet' ↦ ensure_fleet_service fleet' gs
    ]

  -- syncStatus: the fleet in memory afterwards.
  unfoldable pub sync_status : GameServerFleet → Option GameServer → M GameServerFleet
  sync_status fleet none = do t ← now api; pure (status_missing t fleet)
  sync_status fleet (some gs) = do
    t ← now api
    written ← update_fleet_status api (synced t fleet gs)
    elim written [ ok fleet' ↦ pure fleet' | err _ ↦ pure (synced t fleet gs) ]

  -- The end of handleSteadyState, from `wasProgressing := …`.
  unfoldable pub settle : GameServerFleet → GameServer → M Outcome
  settle fleet gs = do
    fleet' ← sync_status fleet (some gs)
    if is_progressing fleet.status.phase
          && (gs.status.ready && leb gs.meta.generation fleet'.status.observed_generation)
        then complete_update fleet' gs
        else ensure_fleet_service fleet' gs

  -- handleSteadyState with a current GameServer
  unfoldable pub steady : GameServerFleet → GameServer → M Outcome
  steady fleet gs =
      let hash = compute_template_hash api.marshal fleet.spec.template in
      let current = get gs.meta.annotations template_hash_annotation in
      if is_failed gs.status.phase
      then handle_failed fleet gs
      else if not (current == "") && not (current == hash)
      then start_spec_update fleet gs hash
      else if current == ""
      then (do
        patched ← patch_server api (annotate_hash hash gs)
        elim patched [ err e ↦ pure (failed_with e) | ok _ ↦ settle fleet gs ])
      else settle fleet gs

  -- `currentGS == nil`: with no GameServer one is created, and with several the next line
  -- dereferences nil.
  unfoldable pub without_current : GameServerFleet → List GameServer → M Outcome
  without_current fleet [] = create_game_server fleet
  without_current fleet (gs ∷ items) = pure panicked

  unfoldable pub handle_steady_state : GameServerFleet → List GameServer → M Outcome
  unfolding without_current
  handle_steady_state fleet items = elim (find_current fleet items) [
    | some gs ↦ steady fleet gs
    | none ↦ without_current fleet items
  ]
