-- ===== src/Access/Isolation/FleetCalls.antt =====
-- The namespaces of the calls of the fleet controller.
use gobehost_operator.Prelude.{
  ◌≡◌, ◌∙◌, String, List, [], ◌∷◌, All, Option, some, Option-cases, inl, inr, Bool-cases, ◌==◌,
  ◌&&◌, leb, if◌then◌else◌, arith,
}
use gobehost_operator.Kube.{Time}
use gobehost_operator.Cluster.{Log, Api, panicked, Response-cases}
use gobehost_operator.Cluster.Footprint.{Makes, Makes-if, Makes-pure, Makes-known, footprint}
use gobehost_operator.Api.{GameServer, GracefulShutdownSpec, GameServerFleet}
use gobehost_operator.Reconciler.{build_fleet_service, set_fleet_condition}
use gobehost_operator.Fleet.{
  list_owned, ensure_fleet_service, create_game_server, handle_failed, complete_update, sync_status,
  settle, without_current, start_spec_update, steady, handle_steady_state, active,
  send_graceful_shutdown, find_named, find_current, build_game_server, apply_template,
  annotate_hash, synced, status_ready, status_not_ready, completed, started, created, replaced,
  is_progressing, only_item,
}
use gobehost_operator.Fleet.Footprint.{Makes-send_graceful_shutdown}
use gobehost_operator.Access.Isolation.{Within, Confines}
use gobehost_operator.Access.Isolation.Rules.{then_update_fleet_status, then_list_servers}

abbrev pub In : String → GameServer → Type 0
In ns gs = gs.meta.namespace ≡ ns

-- The GameServer that a pass works on is one of the list.
find_named-In :
    (ns name : String) (items : List GameServer) (gs : GameServer)
    → All (In ns) items
    → find_named name items ≡ some gs
    → In ns gs
unfolding find_named
find_named-In ns name [] gs h e = cc
find_named-In ns name (x ∷ items) gs h e = elim (Bool-cases (x.meta.name == name)) [
  | inl t ↦ ground (arith, h.0, e, t)
  | inr t ↦ find_named-In ns name items gs h.1 (ground (arith, e, t))
]

only_item-In :
    (ns : String) (items : List GameServer) (gs : GameServer)
    → All (In ns) items
    → only_item items ≡ some gs
    → In ns gs
only_item-In ns [] gs h e = cc
only_item-In ns (x ∷ []) gs h e = ground (arith, h.0, e)
only_item-In ns (x ∷ y ∷ items) gs h e = cc

find_current-In :
    (ns : String) (fleet : GameServerFleet) (items : List GameServer) (gs : GameServer)
    → All (In ns) items
    → find_current fleet items ≡ some gs
    → In ns gs
unfolding find_current
find_current-In ns fleet items gs h e =
    elim (Option-cases (find_named fleet.status.current_game_server items)) [
      | inl n ↦ only_item-In ns items gs h (rw (n, find_current) at e)
      | inr (x, n) ↦
          find_named-In ns fleet.status.current_game_server items gs h (n ∙ ground (arith, e, n))
    ]

synced-meta :
    (t : Time) (fleet : GameServerFleet) (gs : GameServer) → (synced t fleet gs).meta ≡ fleet.meta
unfolding synced status_ready status_not_ready set_fleet_condition
synced-meta t fleet gs = ground arith

-- The fleet in memory after syncStatus is that of the namespace too.
sync_status-namespace :
    {api : Api} (confines : Confines api) {ns : String} (fleet : GameServerFleet) (gs : GameServer)
    (log : Log)
    → fleet.meta.namespace ≡ ns
    → (sync_status api fleet (some gs) log).0.meta.namespace ≡ ns
unfolding sync_status
sync_status-namespace {api} confines {ns} fleet gs log h =
    let sent = synced (api.now log) fleet gs in
    let kept : sent.meta.namespace ≡ ns = rw (synced-meta (api.now log) fleet gs) h in
    elim (Response-cases (api.update_fleet_status log sent)) [
      | inl (fleet', e) ↦ rw (e, sync_status) (confines.stored_fleet log sent fleet' e ∙ kept)
      | inr (_, e) ↦ rw (e, sync_status) kept
    ]

module _ {api : Api} (confines : Confines api) {system ns : String} where
  Within-send_graceful_shutdown :
      (config : Option GracefulShutdownSpec) (gs : GameServer)
      → Makes (Within system ns) (send_graceful_shutdown api config gs)
  Within-send_graceful_shutdown = Makes-send_graceful_shutdown (λ n. tt) (λ h p w c t. tt) api

  Within-ensure_fleet_service :
      (fleet : GameServerFleet) (gs : GameServer)
      → fleet.meta.namespace ≡ ns
      → Makes (Within system ns) (ensure_fleet_service api fleet gs)
  unfolding ensure_fleet_service build_fleet_service
  Within-ensure_fleet_service fleet gs h =
      let svc = build_fleet_service fleet gs in
      elim (Option-cases (api.set_controller_reference fleet.meta svc.meta)) [
        | inl e ↦ rw (e, ensure_fleet_service) (search (footprint))
        | inr (meta, e) ↦
            let named : meta.namespace ≡ ns = confines.controlled fleet.meta svc.meta meta e ∙ h in
            rw (e, ensure_fleet_service) (search (footprint, named))
      ]

  Within-complete_update :
      (fleet : GameServerFleet) (gs : GameServer)
      → fleet.meta.namespace ≡ ns
      → Makes (Within system ns) (complete_update api fleet gs)
  unfolding complete_update completed set_fleet_condition
  Within-complete_update fleet gs h =
      search (then_update_fleet_status confines, footprint, h, Within-ensure_fleet_service) depth 9

  Within-sync_status :
      (fleet : GameServerFleet) (gs : GameServer)
      → fleet.meta.namespace ≡ ns
      → Makes (Within system ns) (sync_status api fleet (some gs))
  unfolding sync_status
  Within-sync_status fleet gs h =
      let kept : (t : Time) → (synced t fleet gs).meta.namespace ≡ ns =
        λ t. rw (synced-meta t fleet gs) h in
      search (footprint, kept)

  Within-settle :
      (fleet : GameServerFleet) (gs : GameServer)
      → fleet.meta.namespace ≡ ns
      → Makes (Within system ns) (settle api fleet gs)
  unfolding settle
  Within-settle fleet gs h =
      Makes-known (λ fleet'. fleet'.meta.namespace ≡ ns) (sync_status api fleet (some gs))
        (λ fleet'.
          if is_progressing fleet.status.phase
            && (gs.status.ready && leb gs.meta.generation fleet'.status.observed_generation)
          then complete_update api fleet' gs
          else ensure_fleet_service api fleet' gs)
        (Within-sync_status fleet gs h) (λ log. sync_status-namespace confines fleet gs log h)
        (λ fleet' k.
          Makes-if _ (complete_update api fleet' gs) (ensure_fleet_service api fleet' gs)
            (Within-complete_update fleet' gs k) (Within-ensure_fleet_service fleet' gs k))

  Within-handle_failed :
      (fleet : GameServerFleet) (gs : GameServer)
      → fleet.meta.namespace ≡ ns
      → In ns gs
      → Makes (Within system ns) (handle_failed api fleet gs)
  unfolding handle_failed replaced
  Within-handle_failed fleet gs h hg = search (footprint, h, hg)

  Within-start_spec_update :
      (fleet : GameServerFleet) (gs : GameServer) (hash : String)
      → fleet.meta.namespace ≡ ns
      → In ns gs
      → Makes (Within system ns) (start_spec_update api fleet gs hash)
  unfolding start_spec_update apply_template started set_fleet_condition
  Within-start_spec_update fleet gs hash h hg =
      search (footprint, h, hg, Within-send_graceful_shutdown) depth 9

  Within-create_game_server :
      (fleet : GameServerFleet)
      → fleet.meta.namespace ≡ ns
      → Makes (Within system ns) (create_game_server api fleet)
  unfolding create_game_server build_game_server created set_fleet_condition
  Within-create_game_server fleet h =
      let built = build_game_server api.marshal fleet "" in
      elim (Option-cases (api.set_controller_reference fleet.meta built.meta)) [
        | inl e ↦ rw (e, create_game_server) (search (footprint))
        | inr (meta, e) ↦
            let named : meta.namespace ≡ ns =
              confines.controlled fleet.meta built.meta meta e ∙ h in
            rw (e, create_game_server)
              (search
                (
                  then_update_fleet_status confines,
                  footprint,
                  h,
                  named,
                  Within-ensure_fleet_service,
                )
                depth 9)
      ]

  Within-without_current :
      (fleet : GameServerFleet) (items : List GameServer)
      → fleet.meta.namespace ≡ ns
      → Makes (Within system ns) (without_current api fleet items)
  unfolding without_current
  Within-without_current fleet [] h = Within-create_game_server fleet h
  Within-without_current fleet (gs ∷ items) h = Makes-pure panicked

  Within-steady :
      (fleet : GameServerFleet) (gs : GameServer)
      → fleet.meta.namespace ≡ ns
      → In ns gs
      → Makes (Within system ns) (steady api fleet gs)
  unfolding steady annotate_hash
  Within-steady fleet gs h hg =
      search (footprint, h, hg, Within-handle_failed, Within-start_spec_update, Within-settle) depth
        9

  Within-handle_steady_state :
      (fleet : GameServerFleet) (items : List GameServer)
      → fleet.meta.namespace ≡ ns
      → All (In ns) items
      → Makes (Within system ns) (handle_steady_state api fleet items)
  unfolding handle_steady_state
  Within-handle_steady_state fleet items h hs = elim (Option-cases (find_current fleet items)) [
    | inr (gs, e) ↦
        rw (e, handle_steady_state)
          (Within-steady fleet gs h (find_current-In ns fleet items gs hs e))
    | inl e ↦ rw (e, handle_steady_state) (Within-without_current fleet items h)
  ]

  pub Within-active :
      (fleet : GameServerFleet)
      → fleet.meta.namespace ≡ ns
      → Makes (Within system ns) (active api fleet)
  unfolding active list_owned
  Within-active fleet h =
      let steps : (items : List GameServer)
          → All (In fleet.meta.namespace) items
          → Makes (Within system ns) (handle_steady_state api fleet items) =
        λ items hs. Within-handle_steady_state fleet items h (rw h at hs) in
      search (then_list_servers confines, footprint, h, steps)
