-- ===== src/Fleet/Rolling.antt =====
-- The rollout of a fleet as an abstract machine, and that a pass follows it.
use gobehost_operator.Prelude.{
  ◌≡◌, refl, inl, inr, true, String, List, [], ◌∷◌, Option, none, some, arith, Option-cases, Bool,
  Bool-cases,
}
use gobehost_operator.Kube.{Time}
use gobehost_operator.Api.{GameServer, GracefulShutdownSpec, RolloutRecord, GameServerFleet}
use gobehost_operator.Cluster.{Call, Log, Api, panicked}
use gobehost_operator.Cluster.Footprint.{Extends, Makes, Makes-pure, footprint}
use gobehost_operator.Fleet.Values.{complete_last, trim_history, find_current, build_game_server}
use gobehost_operator.Fleet.Statuses.{
  is_progressing, synced, completed, started, created, replaced, status_ready, status_not_ready,
}
use gobehost_operator.Fleet.Rollout.{
  send_graceful_shutdown, ensure_fleet_service, create_game_server, handle_failed,
  start_spec_update, complete_update, sync_status, settle, steady, without_current,
  handle_steady_state,
}
use gobehost_operator.Fleet.Lifecycle.{list_owned, active}
use gobehost_operator.Fleet.Footprint.{Makes-send_graceful_shutdown, Makes-ensure_fleet_service}
use gobehost_operator.Fleet.History.{
  last, is_complete, last-append, last-trim_history, last-complete_last,
}

-- Between rollouts, or in one from a version to another.
pub data Rollout : Type 0 where
  idle : Rollout
  running : String → String → Rollout

-- One move, in a pass over a fleet whose template asks for version `target`: a rollout to that
-- version may begin at any time, also in place of one that runs, and one that runs may finish if the
-- phase of the fleet was Progressing.
pub data Moves (target : String) (progressing : Bool) (from : Rollout) : Rollout → Type 0 where
  stay : Moves target progressing from from
  begin : (old : String) → Moves target progressing from (running old target)
  finish :
      (old new : String)
      → progressing ≡ true
      → from ≡ running old new
      → Moves target progressing from idle

abbrev state_of : Option RolloutRecord → Rollout
state_of none = idle
state_of (some r) = elim (r.completed_at) [
  | none ↦ running r.from_version r.to_version
  | some t ↦ idle
]

-- What the history of a status says.
abbrev pub rollout : GameServerFleet → Rollout
rollout fleet = state_of (last fleet.status.history)

-- What a pass over the fleet may make of its rollout.
abbrev pub Next : GameServerFleet → Rollout → Type 0
Next fleet =
    Moves fleet.spec.template.spec.game.version (is_progressing fleet.status.phase) (rollout fleet)

-- The call, where it writes the status of a fleet, makes one move.
abbrev pub Follows : GameServerFleet → Call → Type 0
Follows fleet (Call.update_fleet_status written) = Next fleet (rollout written)
Follows fleet _ = Unit

complete_idle : (r : Option RolloutRecord) → is_complete r ≡ true → state_of r ≡ idle
complete_idle none h = refl
complete_idle (some r) h = elim (Option-cases r.completed_at) [
  | inl e ↦ absurd (ground (arith, h, e))
  | inr (t, e) ↦ rw e refl
]

to_idle :
    (target : String) (progressing : Bool) (s : Rollout)
    → progressing ≡ true
    → Moves target progressing s idle
to_idle target progressing idle h = stay
to_idle target progressing (running old new) h = finish old new h refl

completed-idle :
    (t : Time) (fleet : GameServerFleet) (gs : GameServer) → rollout (completed t fleet gs) ≡ idle
unfolding completed
completed-idle t fleet gs = trimmed fleet.status.history
  where
    version : String
    version = gs.spec.game.version

    trimmed :
        (h : List RolloutRecord) → state_of (last (trim_history (complete_last t version h))) ≡ idle
    trimmed [] = refl
    trimmed (r ∷ rs) = complete_idle _ (
        rw (last-trim_history (complete_last t version (r ∷ rs)))
          (last-complete_last t version (r ∷ rs) (λ e. cc)))

started-rollout :
    (t : Time) (fleet : GameServerFleet) (gs : GameServer)
    → rollout (started t fleet gs)
      ≡ running gs.spec.game.version fleet.spec.template.spec.game.version
unfolding started
started-rollout t fleet gs = rw (last-append fleet.status.history) refl

synced-history :
    (t : Time) (fleet : GameServerFleet) (gs : GameServer)
    → (synced t fleet gs).status.history ≡ fleet.status.history
unfolding synced status_ready status_not_ready
synced-history t fleet gs = ground arith

created-history :
    (t : Time) (fleet : GameServerFleet) (gs : GameServer)
    → (created t fleet gs).status.history ≡ fleet.status.history
unfolding created
created-history t fleet gs = refl

module _ (api : Api) (fleet : GameServerFleet) where
  Follows-send_graceful_shutdown :
      (config : Option GracefulShutdownSpec) (gs : GameServer)
      → Makes (Follows fleet) (send_graceful_shutdown api config gs)
  Follows-send_graceful_shutdown = Makes-send_graceful_shutdown (λ n. tt) (λ h p w c t. tt) api

  Follows-ensure_fleet_service :
      (fleet' : GameServerFleet) (gs : GameServer)
      → Makes (Follows fleet) (ensure_fleet_service api fleet' gs)
  Follows-ensure_fleet_service = Makes-ensure_fleet_service (λ svc f. tt) api

  Follows-complete_update :
      (fleet' : GameServerFleet) (gs : GameServer)
      → is_progressing fleet.status.phase ≡ true
      → Makes (Follows fleet) (complete_update api fleet' gs)
  unfolding complete_update
  Follows-complete_update fleet' gs h =
      let ended : (t : Time) → Next fleet (rollout (completed t fleet' gs)) =
        λ t. rw (completed-idle t fleet' gs) (to_idle _ _ (rollout fleet) h) in
      search (footprint, ended, Follows-ensure_fleet_service)

  Follows-sync_status : (gs : GameServer) → Makes (Follows fleet) (sync_status api fleet (some gs))
  unfolding sync_status
  Follows-sync_status gs =
      let kept : (t : Time) → Next fleet (rollout (synced t fleet gs)) =
        λ t. rw (synced-history t fleet gs) stay in
      search (footprint, kept)

  Follows-handle_failed : (gs : GameServer) → Makes (Follows fleet) (handle_failed api fleet gs)
  unfolding handle_failed replaced
  Follows-handle_failed gs =
      let kept : Next fleet (rollout (replaced fleet)) = stay in search (footprint, kept)

  Follows-start_spec_update :
      (gs : GameServer) (hash : String)
      → Makes (Follows fleet) (start_spec_update api fleet gs hash)
  unfolding start_spec_update
  Follows-start_spec_update gs hash =
      let begun : (t : Time) → Next fleet (rollout (started t fleet gs)) =
        λ t. rw (started-rollout t fleet gs) (begin gs.spec.game.version) in
      search (footprint, Follows-send_graceful_shutdown, begun) depth 9

  Follows-create_game_server : Makes (Follows fleet) (create_game_server api fleet)
  unfolding create_game_server
  Follows-create_game_server =
      let built = build_game_server api.marshal fleet "" in
      let kept : (t : Time) (gs : GameServer) → Next fleet (rollout (created t fleet gs)) =
        λ t gs. rw (created-history t fleet gs) stay in
      elim (Option-cases (api.set_controller_reference fleet.meta built.meta)) [
        | inl h ↦ rw (h, create_game_server) (search (footprint))
        | inr (meta, h) ↦
            rw (h, create_game_server)
              (search (footprint, kept, Follows-ensure_fleet_service) depth 9)
      ]

  Follows-settle : (gs : GameServer) → Makes (Follows fleet) (settle api fleet gs)
  unfolding settle
  Follows-settle gs = elim (Bool-cases (is_progressing fleet.status.phase)) [
    | inl h ↦
        rw (h, settle)
          (search (
            footprint, Follows-sync_status, Follows-complete_update, h,
            Follows-ensure_fleet_service,
          ))
    | inr h ↦ rw (h, settle) (search (footprint, Follows-sync_status, Follows-ensure_fleet_service))
  ]

  Follows-steady : (gs : GameServer) → Makes (Follows fleet) (steady api fleet gs)
  unfolding steady
  Follows-steady gs =
      search (footprint, Follows-handle_failed, Follows-start_spec_update, Follows-settle) depth 9

  Follows-without_current :
      (items : List GameServer) → Makes (Follows fleet) (without_current api fleet items)
  unfolding without_current
  Follows-without_current [] = Follows-create_game_server
  Follows-without_current (gs ∷ items) = Makes-pure panicked

  Follows-handle_steady_state :
      (items : List GameServer) → Makes (Follows fleet) (handle_steady_state api fleet items)
  unfolding handle_steady_state
  Follows-handle_steady_state items = elim (Option-cases (find_current fleet items)) [
    | inr (gs, h) ↦ rw (h, handle_steady_state) (Follows-steady gs)
    | inl h ↦ rw (h, handle_steady_state) (Follows-without_current items)
  ]

  Follows-active : Makes (Follows fleet) (active api fleet)
  unfolding active list_owned
  Follows-active = search (footprint, Follows-handle_steady_state)

-- Every status that a pass over an active fleet writes, be it one or two, is one move of the
-- machine from the status that was read.
pub active-Follows :
    (api : Api) (fleet : GameServerFleet) (log : Log)
    → Extends (Follows fleet) log (active api fleet log).1
active-Follows api fleet log = (Follows-active api fleet).at log
