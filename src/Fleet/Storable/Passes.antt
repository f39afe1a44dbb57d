-- ===== src/Fleet/Storable/Passes.antt =====
-- The status writes of a whole pass over an active fleet, against the schema.
use gobehost_operator.Prelude.{
  ◌≡◌, ◌⊎◌, inl, inr, String, List, [], ◌∷◌, Option, some, if◌then◌else◌, leb, ◌&&◌, arith, length,
  Option-cases,
}
use gobehost_operator.Kube.{Time}
use gobehost_operator.Api.{GameServer, GracefulShutdownSpec, GameServerFleet}
use gobehost_operator.Cluster.{Call, Log, Api, panicked, Response-cases}
use gobehost_operator.Cluster.Footprint.{
  Extends, Makes, Makes-pure, Makes-if, Makes-known, footprint,
}
use gobehost_operator.Fleet.Values.{find_current, build_game_server}
use gobehost_operator.Fleet.Statuses.{is_progressing, synced, completed, started, created, replaced}
use gobehost_operator.Fleet.Rollout.{
  send_graceful_shutdown, ensure_fleet_service, create_game_server, handle_failed,
  start_spec_update, complete_update, sync_status, settle, steady, without_current,
  handle_steady_state,
}
use gobehost_operator.Fleet.Lifecycle.{list_owned, active}
use gobehost_operator.Fleet.Footprint.{Makes-send_graceful_shutdown, Makes-ensure_fleet_service}
use gobehost_operator.Fleet.History.{started-history}
use gobehost_operator.Fleet.Storable.{
  IsStorable, StoresStorable, synced-IsStorable, created-IsStorable, completed-IsStorable,
  started-IsStorable, replaced-IsStorable,
}

-- The call, where it writes the status of a fleet, writes one that fits, or one with eleven records
-- where the status that was read had ten.
abbrev pub Fitting : GameServerFleet → Call → Type 0
Fitting fleet (Call.update_fleet_status written) =
    IsStorable written ⊎ ((length fleet.status.history ≡ 10) × (length written.status.history ≡ 11))
Fitting fleet _ = Unit

module _ (api : Api) (stores : StoresStorable api) (fleet : GameServerFleet)
    (h : IsStorable fleet) where
  Fitting-send_graceful_shutdown :
      (config : Option GracefulShutdownSpec) (gs : GameServer)
      → Makes (Fitting fleet) (send_graceful_shutdown api config gs)
  Fitting-send_graceful_shutdown = Makes-send_graceful_shutdown (λ n. tt) (λ h p w c t. tt) api

  Fitting-ensure_fleet_service :
      (fleet' : GameServerFleet) (gs : GameServer)
      → Makes (Fitting fleet) (ensure_fleet_service api fleet' gs)
  Fitting-ensure_fleet_service = Makes-ensure_fleet_service (λ svc f. tt) api

  Fitting-complete_update :
      (gs : GameServer) (fleet' : GameServerFleet)
      → IsStorable fleet'
      → Makes (Fitting fleet) (complete_update api fleet' gs)
  unfolding complete_update
  Fitting-complete_update gs fleet' k =
      let fits : (t : Time) → Fitting fleet (Call.update_fleet_status (completed t fleet' gs)) =
        λ t. inl (completed-IsStorable t fleet' gs k) in
      search (footprint, fits, Fitting-ensure_fleet_service)

  Fitting-sync_status : (gs : GameServer) → Makes (Fitting fleet) (sync_status api fleet (some gs))
  unfolding sync_status
  Fitting-sync_status gs =
      let fits : (t : Time) → Fitting fleet (Call.update_fleet_status (synced t fleet gs)) =
        λ t. inl (synced-IsStorable t fleet gs h) in
      search (footprint, fits)

  -- The fleet that syncStatus leaves in memory fits too.
  sync_status-IsStorable :
      (gs : GameServer) (log : Log) → IsStorable (sync_status api fleet (some gs) log).0
  unfolding sync_status
  sync_status-IsStorable gs log =
      let fits = synced-IsStorable (api.now log) fleet gs h in
      elim (Response-cases (api.update_fleet_status log (synced (api.now log) fleet gs))) [
        | inl (fleet', e) ↦ rw (e, sync_status) (stores log _ fleet' e fits)
        | inr (_, e) ↦ rw (e, sync_status) fits
      ]

  Fitting-handle_failed : (gs : GameServer) → Makes (Fitting fleet) (handle_failed api fleet gs)
  unfolding handle_failed
  Fitting-handle_failed gs =
      let fits : Fitting fleet (Call.update_fleet_status (replaced fleet)) =
        inl (replaced-IsStorable fleet h) in
      search (footprint, fits)

  begun :
      (gs : GameServer) (t : Time) → Fitting fleet (Call.update_fleet_status (started t fleet gs))
  begun gs t =
      let longer = (started-history t fleet gs).0 in
      elim (started-IsStorable t fleet gs h) [
        | inl fits ↦ inl fits
        | inr full ↦ inr (omega arith, full)
      ]

  Fitting-start_spec_update :
      (gs : GameServer) (hash : String)
      → Makes (Fitting fleet) (start_spec_update api fleet gs hash)
  unfolding start_spec_update
  Fitting-start_spec_update gs hash =
      let fits = begun gs in search (footprint, Fitting-send_graceful_shutdown, fits) depth 9

  Fitting-create_game_server : Makes (Fitting fleet) (create_game_server api fleet)
  unfolding create_game_server
  Fitting-create_game_server =
      let built = build_game_server api.marshal fleet "" in
      let fits : (t : Time) (gs : GameServer)
          → Fitting fleet (Call.update_fleet_status (created t fleet gs)) =
        λ t gs. inl (created-IsStorable t fleet gs h) in
      elim (Option-cases (api.set_controller_reference fleet.meta built.meta)) [
        | inl e ↦ rw (e, create_game_server) (search (footprint))
        | inr (meta, e) ↦
            rw (e, create_game_server)
              (search (footprint, fits, Fitting-ensure_fleet_service) depth 9)
      ]

  Fitting-settle : (gs : GameServer) → Makes (Fitting fleet) (settle api fleet gs)
  unfolding settle
  Fitting-settle gs =
      Makes-known IsStorable (sync_status api fleet (some gs))
        (λ fleet'.
          if is_progressing fleet.status.phase
            && (gs.status.ready && leb gs.meta.generation fleet'.status.observed_generation)
          then complete_update api fleet' gs
          else ensure_fleet_service api fleet' gs)
        (Fitting-sync_status gs) (sync_status-IsStorable gs)
        (λ fleet' k.
          Makes-if _ (complete_update api fleet' gs) (ensure_fleet_service api fleet' gs)
            (Fitting-complete_update gs fleet' k) (Fitting-ensure_fleet_service fleet' gs))

  Fitting-steady : (gs : GameServer) → Makes (Fitting fleet) (steady api fleet gs)
  unfolding steady
  Fitting-steady gs =
      search (footprint, Fitting-handle_failed, Fitting-start_spec_update, Fitting-settle) depth 9

  Fitting-without_current :
      (items : List GameServer) → Makes (Fitting fleet) (without_current api fleet items)
  unfolding without_current
  Fitting-without_current [] = Fitting-create_game_server
  Fitting-without_current (gs ∷ items) = Makes-pure panicked

  Fitting-handle_steady_state :
      (items : List GameServer) → Makes (Fitting fleet) (handle_steady_state api fleet items)
  unfolding handle_steady_state
  Fitting-handle_steady_state items = elim (Option-cases (find_current fleet items)) [
    | inr (gs, e) ↦ rw (e, handle_steady_state) (Fitting-steady gs)
    | inl e ↦ rw (e, handle_steady_state) (Fitting-without_current items)
  ]

  Fitting-active : Makes (Fitting fleet) (active api fleet)
  unfolding active list_owned
  Fitting-active = search (footprint, Fitting-handle_steady_state)

-- Over a server that stores only statuses that fit, each status that a pass over an active fleet
-- writes fits the schema: it has ten records of rollouts at most, with the results of the
-- enumeration, and one condition for each type. The only exception is a rollout that begins with ten
-- records in the history, which writes eleven.
pub active-Fitting :
    (api : Api) (fleet : GameServerFleet) (log : Log)
    → StoresStorable api
    → IsStorable fleet
    → Extends (Fitting fleet) log (active api fleet log).1
active-Fitting api fleet log stores h = (Fitting-active api stores fleet h).at log
