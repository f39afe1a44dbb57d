-- ===== src/Access/Isolation/FleetDeletion.antt =====
-- The namespaces of the calls that delete a fleet, and of a whole pass.
use gobehost_operator.Prelude.{◌≡◌, String, List, [], ◌∷◌, All, Bool, true, false}
use gobehost_operator.Kube.{Key}
use gobehost_operator.Cluster.{Api, M, is_some}
use gobehost_operator.Cluster.Footprint.{Makes, Makes-if, footprint}
use gobehost_operator.Api.{GameServer, GameServerFleet}
use gobehost_operator.Fleet.{
  LoopEnd, stop, still_exists, delete_then, remove_server, remove_servers, release_fleet,
  release_if_empty, drop_service, list_owned, finish_loop, finalize, reconcile_fleet, reconcile,
}
use gobehost_operator.Access.Isolation.{Within, Confines}
use gobehost_operator.Access.Isolation.Rules.{
  then_get_fleet, then_get_service, then_update_server, then_list_servers,
}
use gobehost_operator.Access.Isolation.FleetCalls.{In, Within-active}

module _ {api : Api} (confines : Confines api) {system ns : String} where
  Within-delete_then :
      (gs : GameServer) (rest : M LoopEnd)
      → In ns gs
      → Makes (Within system ns) rest
      → Makes (Within system ns) (delete_then api gs rest)
  unfolding delete_then
  Within-delete_then gs rest h hr = search (footprint)

  Within-remove_server :
      (gs : GameServer) (rest : M LoopEnd)
      → In ns gs
      → Makes (Within system ns) rest
      → Makes (Within system ns) (remove_server api gs rest)
  unfolding remove_server
  Within-remove_server gs rest h hr =
      search (then_update_server confines, footprint, Within-delete_then)

  Within-remove_servers :
      (still : Bool) (items : List GameServer)
      → All (In ns) items
      → Makes (Within system ns) (remove_servers api still items)
  unfolding remove_servers
  Within-remove_servers still [] h = search (footprint)
  Within-remove_servers still (gs ∷ items) h =
      let rest = Within-remove_servers true items h.1 in
      Makes-if (is_some gs.meta.deletion_timestamp) _ _ rest (Within-remove_server gs _ h.0 rest)

  Within-release_fleet :
      (fleet : GameServerFleet)
      → fleet.meta.namespace ≡ ns
      → Makes (Within system ns) (release_fleet api fleet)
  unfolding release_fleet
  Within-release_fleet fleet h = search (footprint, h)

  Within-release_if_empty :
      (fleet : GameServerFleet) (items : List GameServer)
      → fleet.meta.namespace ≡ ns
      → Makes (Within system ns) (release_if_empty api fleet items)
  unfolding release_if_empty
  Within-release_if_empty fleet [] h = Within-release_fleet fleet h
  Within-release_if_empty fleet (gs ∷ items) h = search (footprint)

  Within-drop_service :
      (fleet : GameServerFleet) (items : List GameServer)
      → fleet.meta.namespace ≡ ns
      → Makes (Within system ns) (drop_service api fleet items)
  unfolding drop_service
  Within-drop_service fleet items h =
      search (then_get_service confines, footprint, h, Within-release_if_empty) depth 9

  Within-finish_loop :
      (fleet : GameServerFleet) (items : List GameServer) (end : LoopEnd)
      → fleet.meta.namespace ≡ ns
      → Makes (Within system ns) (finish_loop api fleet items end)
  unfolding finish_loop
  Within-finish_loop fleet items (stop outcome) h = search (footprint)
  Within-finish_loop fleet items (still_exists true) h = search (footprint)
  Within-finish_loop fleet items (still_exists false) h = Within-drop_service fleet items h

  Within-finalize :
      (fleet : GameServerFleet)
      → fleet.meta.namespace ≡ ns
      → Makes (Within system ns) (finalize api fleet)
  unfolding finalize list_owned
  Within-finalize fleet h =
      let loop : (items : List GameServer)
          → All (In fleet.meta.namespace) items
          → Makes (Within system ns) (remove_servers api false items) =
        λ items hs. Within-remove_servers false items (rw h at hs) in
      search (then_list_servers confines, footprint, h, loop, Within-finish_loop)

  Within-reconcile_fleet :
      (fleet : GameServerFleet)
      → fleet.meta.namespace ≡ ns
      → Makes (Within system ns) (reconcile_fleet api fleet)
  unfolding reconcile_fleet
  Within-reconcile_fleet fleet h =
      search (footprint, h, Within-finalize, Within-active confines) depth 9

  pub Within-reconcile :
      (key : Key) → key.namespace ≡ ns → Makes (Within system ns) (reconcile api key)
  unfolding reconcile
  Within-reconcile key h = search (then_get_fleet confines, footprint, h, Within-reconcile_fleet)
