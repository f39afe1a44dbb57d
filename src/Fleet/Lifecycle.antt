-- ===== src/Fleet/Lifecycle.antt =====
-- internal/controller/gameserverfleet_controller.go: deletion, and Reconcile.
use gobehost_operator.Prelude.{
  Bool, true, false, not, List, [], ◌∷◌, if◌then◌else◌, contains, delete,
}
use gobehost_operator.Kube.{Key, key_of}
use gobehost_operator.Api.{
  game_server_finalizer, GameServer, game_server_fleet_finalizer, fleet_name_label, GameServerFleet,
}
use gobehost_operator.Cluster.{
  Response, ok, err, Api, M, pure, ◌>>=◌, get_fleet, get_service, update_server, delete_server,
  update_fleet, delete_service, list_servers, no_requeue, requeue, requeue_after, Outcome, done,
  failed_with, requeue_on_conflict, is_not_found, is_some,
}
use gobehost_operator.Fleet.Values.{has_fleet_finalizer}
use gobehost_operator.Fleet.Rollout.{with_finalizer, handle_steady_state}

-- How the loop of `finalize` ends: an early return, or `stillExists`.
pub data LoopEnd : Type 0 where
  stop : Outcome → LoopEnd
  still_exists : Bool → LoopEnd

abbrev pub without_server_finalizer : GameServer → GameServer
without_server_finalizer gs = record gs {
  meta = record (gs.meta) { finalizers = delete gs.meta.finalizers game_server_finalizer };
}

abbrev pub without_fleet_finalizer : GameServerFleet → GameServerFleet
without_fleet_finalizer fleet = record fleet {
  meta = record (fleet.meta) {
    finalizers = delete fleet.meta.finalizers game_server_fleet_finalizer;
  };
}

module _ (api : Api) where
  -- The deletion of one GameServer, and then the rest of the loop.
  unfoldable pub delete_then : GameServer → M LoopEnd → M LoopEnd
  delete_then gs rest = do
    deleted ← delete_server api gs
    elim deleted [
      | ok _ ↦ rest
      | err e ↦ if is_not_found e then rest else pure (stop (failed_with e))
    ]

  -- The body of the loop for a GameServer that is not being deleted.
  unfoldable pub remove_server : GameServer → M LoopEnd → M LoopEnd
  unfolding delete_then contains delete
  remove_server gs rest =
      if contains gs.meta.finalizers game_server_finalizer
      then (do
        updated ← update_server api (without_server_finalizer gs)
        elim updated [
          | err e ↦ pure (stop (requeue_on_conflict e))
          | ok gs' ↦ delete_then gs' rest
        ])
      else delete_then gs rest

  unfoldable pub remove_servers : Bool → List GameServer → M LoopEnd
  unfolding remove_server
  remove_servers still [] = pure (still_exists still)
  remove_servers still (gs ∷ items) =
      let rest = remove_servers true items in
      if is_some gs.meta.deletion_timestamp then rest else remove_server gs rest

  unfoldable pub release_fleet : GameServerFleet → M Outcome
  unfolding delete
  release_fleet fleet = do
    updated ← update_fleet api (without_fleet_finalizer fleet)
    elim updated [ err e ↦ pure (requeue_on_conflict e) | ok _ ↦ pure (done no_requeue) ]

  -- `if len(gsList.Items) > 0 { … }` and what follows it
  unfoldable pub release_if_empty : GameServerFleet → List GameServer → M Outcome
  unfolding release_fleet
  release_if_empty fleet [] = release_fleet fleet
  release_if_empty fleet (gs ∷ items) = pure (done (requeue_after 5))

  unfoldable pub drop_service : GameServerFleet → List GameServer → M Outcome
  unfolding release_if_empty
  drop_service fleet items = do
    found ← get_service api (key_of fleet.meta)
    elim found [
      | err _ ↦ release_if_empty fleet items
      | ok svc ↦ if is_some svc.meta.deletion_timestamp then release_if_empty fleet items else (do
        deleted ← delete_service api svc
        elim deleted [
          | ok _ ↦ release_if_empty fleet items
          | err e ↦ if is_not_found e then release_if_empty fleet items else pure (failed_with e)
        ])
    ]

  unfoldable pub list_owned : GameServerFleet → M (Response (List GameServer))
  list_owned fleet =
      list_servers api fleet.meta.namespace ((fleet_name_label, fleet.meta.name) ∷ [])

  unfoldable pub finish_loop : GameServerFleet → List GameServer → LoopEnd → M Outcome
  unfolding drop_service
  finish_loop fleet items (stop outcome) = pure outcome
  finish_loop fleet items (still_exists true) = pure (done (requeue_after 2))
  finish_loop fleet items (still_exists false) = drop_service fleet items

  unfoldable pub finalize : GameServerFleet → M Outcome
  unfolding list_owned
  finalize fleet = do
    listed ← list_owned fleet
    elim listed [
      | err e ↦ pure (failed_with e)
      | ok items ↦ do end ← remove_servers false items; finish_loop fleet items end
    ]

  unfoldable pub active : GameServerFleet → M Outcome
  unfolding list_owned
  active fleet = do
    listed ← list_owned fleet
    elim listed [ err e ↦ pure (failed_with e) | ok items ↦ handle_steady_state api fleet items ]

  -- Reconcile of a fleet that was read
  unfoldable pub reconcile_fleet : GameServerFleet → M Outcome
  unfolding has_fleet_finalizer
  reconcile_fleet fleet =
      if is_some fleet.meta.deletion_timestamp
      then finalize fleet
      else if not (has_fleet_finalizer fleet)
      then (do
        updated ← update_fleet api (with_finalizer fleet)
        elim updated [ err e ↦ pure (failed_with e) | ok _ ↦ pure (done requeue) ])
      else active fleet

  -- Reconcile
  unfoldable pub reconcile : Key → M Outcome
  reconcile key = do
    found ← get_fleet api key
    elim found [
      | ok fleet ↦ reconcile_fleet fleet
      | err e ↦ pure (if is_not_found e then done no_requeue else failed_with e)
    ]
