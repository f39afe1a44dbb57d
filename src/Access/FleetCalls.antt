-- ===== src/Access/FleetCalls.antt =====
-- The calls of a pass of the fleet controller, operation by operation.
use gobehost_operator.Prelude.{ℕ, String, List, Option-cases, inl, inr, false, ◌≡◌, refl}
use gobehost_operator.Prelude.Int.{ℤ}
use gobehost_operator.Kube.{Key}
use gobehost_operator.Cluster.{Call, Api}
use gobehost_operator.Cluster.Footprint.{Makes, footprint}
use gobehost_operator.Api.{GameServer, GameServerFleet}
use gobehost_operator.Fleet.{
  active, reconcile_fleet, reconcile, start_spec_update, steady, handle_steady_state, find_current,
}
use gobehost_operator.Fleet.Footprint.{Makes-send_graceful_shutdown}
use gobehost_operator.Access.FleetQuiet.{
  Makes-handle_failed, Makes-settle, Makes-finalize, Makes-list_owned, Makes-without_current,
}
use gobehost_operator.Access.Role.{Permitted, waits}

module _ {P : Call → Type 0} (permit : (c : Call) → Permitted c → P c) (api : Api) where
  quiet : (c : Call) → Permitted c → waits c ≡ false → P c
  quiet c p w = permit c p

  sleeps : (n : ℕ) → P (Call.sleep n)
  sleeps n = permit (Call.sleep n) refl

  sends :
      (host : String) (port : ℤ) (password command : String) (timeout : ℤ)
      → P (Call.send_command host port password command timeout)
  sends host port password command timeout =
      permit (Call.send_command host port password command timeout) refl

  Makes-start_spec_update :
      (fleet : GameServerFleet) (gs : GameServer) (hash : String)
      → Makes P (start_spec_update api fleet gs hash)
  unfolding start_spec_update
  Makes-start_spec_update fleet gs hash =
      search (footprint, permit, Makes-send_graceful_shutdown {P = P} sleeps sends api) depth 9

  Makes-steady : (fleet : GameServerFleet) (gs : GameServer) → Makes P (steady api fleet gs)
  unfolding steady
  Makes-steady fleet gs =
      search
        (
          footprint,
          permit,
          Makes-handle_failed quiet api,
          Makes-start_spec_update,
          Makes-settle quiet api,
        )
        depth 9

  Makes-handle_steady_state :
      (fleet : GameServerFleet) (items : List GameServer)
      → Makes P (handle_steady_state api fleet items)
  unfolding handle_steady_state
  Makes-handle_steady_state fleet items = elim (Option-cases (find_current fleet items)) [
    | inr (gs, h) ↦ rw (h, handle_steady_state) (Makes-steady fleet gs)
    | inl h ↦ rw (h, handle_steady_state) (Makes-without_current quiet api fleet items)
  ]

  Makes-active : (fleet : GameServerFleet) → Makes P (active api fleet)
  unfolding active
  Makes-active fleet = search (footprint, Makes-list_owned quiet api, Makes-handle_steady_state)

  Makes-reconcile_fleet : (fleet : GameServerFleet) → Makes P (reconcile_fleet api fleet)
  unfolding reconcile_fleet
  Makes-reconcile_fleet fleet =
      search (footprint, permit, Makes-finalize quiet api, Makes-active) depth 9

  pub Makes-reconcile : (key : Key) → Makes P (reconcile api key)
  unfolding reconcile
  Makes-reconcile key = search (footprint, permit, Makes-reconcile_fleet)
