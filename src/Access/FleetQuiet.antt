-- ===== src/Access/FleetQuiet.antt =====
-- The operations of the fleet controller that wait for nothing, one by one.
use gobehost_operator.Prelude.{
  Bool, true, List, [], ◌∷◌, some, Option-cases, inl, inr, false, ◌≡◌, refl,
}
use gobehost_operator.Cluster.{Call, Api, M, panicked, is_some}
use gobehost_operator.Cluster.Footprint.{Makes, Makes-if, Makes-pure, footprint}
use gobehost_operator.Api.{GameServer, GameServerFleet}
use gobehost_operator.Fleet.{
  LoopEnd, stop, still_exists, delete_then, remove_server, remove_servers, release_fleet,
  release_if_empty, drop_service, list_owned, finish_loop, finalize, ensure_fleet_service,
  create_game_server, handle_failed, complete_update, sync_status, settle, without_current,
  build_game_server,
}
use gobehost_operator.Fleet.Footprint.{Makes-ensure_fleet_service}
use gobehost_operator.Access.Role.{Permitted, waits}

module _ {P : Call → Type 0} (quiet : (c : Call) → Permitted c → waits c ≡ false → P c)
    (api : Api) where
  Makes-fleet_service :
      (fleet : GameServerFleet) (gs : GameServer) → Makes P (ensure_fleet_service api fleet gs)
  Makes-fleet_service =
      Makes-ensure_fleet_service (λ svc f. quiet (Call.apply_service svc f) refl refl) api

  pub Makes-handle_failed :
      (fleet : GameServerFleet) (gs : GameServer) → Makes P (handle_failed api fleet gs)
  unfolding handle_failed
  Makes-handle_failed fleet gs = search (footprint, quiet)

  Makes-complete_update :
      (fleet : GameServerFleet) (gs : GameServer) → Makes P (complete_update api fleet gs)
  unfolding complete_update
  Makes-complete_update fleet gs = search (footprint, quiet, Makes-fleet_service)

  Makes-sync_status :
      (fleet : GameServerFleet) (gs : GameServer) → Makes P (sync_status api fleet (some gs))
  unfolding sync_status
  Makes-sync_status fleet gs = search (footprint, quiet)

  pub Makes-settle : (fleet : GameServerFleet) (gs : GameServer) → Makes P (settle api fleet gs)
  unfolding settle
  Makes-settle fleet gs =
      search (footprint, Makes-sync_status, Makes-complete_update, Makes-fleet_service)

  Makes-delete_then :
      (gs : GameServer) (rest : M LoopEnd) → Makes P rest → Makes P (delete_then api gs rest)
  unfolding delete_then
  Makes-delete_then gs rest hr = search (footprint, quiet)

  Makes-remove_server :
      (gs : GameServer) (rest : M LoopEnd) → Makes P rest → Makes P (remove_server api gs rest)
  unfolding remove_server
  Makes-remove_server gs rest hr = search (footprint, quiet, Makes-delete_then)

  Makes-remove_servers :
      (still : Bool) (items : List GameServer) → Makes P (remove_servers api still items)
  unfolding remove_servers
  Makes-remove_servers still [] = search (footprint)
  Makes-remove_servers still (gs ∷ items) =
      let rest = Makes-remove_servers true items in
      Makes-if (is_some gs.meta.deletion_timestamp) _ _ rest (Makes-remove_server gs _ rest)

  Makes-release_fleet : (fleet : GameServerFleet) → Makes P (release_fleet api fleet)
  unfolding release_fleet
  Makes-release_fleet fleet = search (footprint, quiet)

  Makes-release_if_empty :
      (fleet : GameServerFleet) (items : List GameServer)
      → Makes P (release_if_empty api fleet items)
  unfolding release_if_empty
  Makes-release_if_empty fleet [] = Makes-release_fleet fleet
  Makes-release_if_empty fleet (gs ∷ items) = search (footprint)

  Makes-drop_service :
      (fleet : GameServerFleet) (items : List GameServer) → Makes P (drop_service api fleet items)
  unfolding drop_service
  Makes-drop_service fleet items = search (footprint, quiet, Makes-release_if_empty)

  pub Makes-list_owned : (fleet : GameServerFleet) → Makes P (list_owned api fleet)
  unfolding list_owned
  Makes-list_owned fleet = search (footprint, quiet)

  Makes-finish_loop :
      (fleet : GameServerFleet) (items : List GameServer) (end : LoopEnd)
      → Makes P (finish_loop api fleet items end)
  unfolding finish_loop
  Makes-finish_loop fleet items (stop outcome) = search (footprint)
  Makes-finish_loop fleet items (still_exists true) = search (footprint)
  Makes-finish_loop fleet items (still_exists false) = Makes-drop_service fleet items

  pub Makes-finalize : (fleet : GameServerFleet) → Makes P (finalize api fleet)
  unfolding finalize
  Makes-finalize fleet =
      search (footprint, Makes-list_owned, Makes-remove_servers, Makes-finish_loop)

  Makes-create_game_server : (fleet : GameServerFleet) → Makes P (create_game_server api fleet)
  unfolding create_game_server
  Makes-create_game_server fleet =
      let built = build_game_server api.marshal fleet "" in
      elim (Option-cases (api.set_controller_reference fleet.meta built.meta)) [
        | inl h ↦ rw (h, create_game_server) (search (footprint))
        | inr (meta, h) ↦
            rw (h, create_game_server) (search (footprint, quiet, Makes-fleet_service) depth 9)
      ]

  pub Makes-without_current :
      (fleet : GameServerFleet) (items : List GameServer)
      → Makes P (without_current api fleet items)
  unfolding without_current
  Makes-without_current fleet [] = Makes-create_game_server fleet
  Makes-without_current fleet (gs ∷ items) = Makes-pure panicked
