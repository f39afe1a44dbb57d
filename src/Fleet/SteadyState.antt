-- ===== src/Fleet/SteadyState.antt =====
-- What one pass over an active fleet does: when it panics, when it creates, when it settles.
use gobehost_operator.Prelude.{
  ◌≤◌, ◌≡◌, refl, ◌≢◌, ◌↔◌, inl, inr, false, String, List, [], ◌∷◌, none, some, arith, eq_refl,
  length, get, Option-cases,
}
use gobehost_operator.Api.{GameServer, template_hash_annotation, GameServerFleet}
use gobehost_operator.Cluster.{Call, Log, Api, panicked}
use gobehost_operator.Fleet.Values.{
  compute_template_hash, find_named, find_current, apply_template, annotate_hash,
}
use gobehost_operator.Fleet.Statuses.{is_failed}
use gobehost_operator.Fleet.Rollout.{
  ensure_fleet_service, create_game_server, handle_failed, start_spec_update, complete_update,
  sync_status, settle, steady, handle_steady_state,
}
use gobehost_operator.Fleet.Hash.{compute_template_hash-ne-empty, apply_template-IsUpdated}

-- None of the steps of a fleet with a current GameServer dereferences nil.
ensure-ne-panicked :
    (api : Api) (fleet : GameServerFleet) (gs : GameServer) (log : Log)
    → (ensure_fleet_service api fleet gs log).0 ≢ panicked
unfolding ensure_fleet_service
ensure-ne-panicked api fleet gs log = ground arith

create-ne-panicked :
    (api : Api) (fleet : GameServerFleet) (log : Log)
    → (create_game_server api fleet log).0 ≢ panicked
unfolding create_game_server ensure_fleet_service
create-ne-panicked api fleet log = ground arith

start-ne-panicked :
    (api : Api) (fleet : GameServerFleet) (gs : GameServer) (hash : String) (log : Log)
    → (start_spec_update api fleet gs hash log).0 ≢ panicked
unfolding start_spec_update
start-ne-panicked api fleet gs hash log = ground arith

handle_failed-ne-panicked :
    (api : Api) (fleet : GameServerFleet) (gs : GameServer) (log : Log)
    → (handle_failed api fleet gs log).0 ≢ panicked
unfolding handle_failed
handle_failed-ne-panicked api fleet gs log = ground arith

settle-ne-panicked :
    (api : Api) (fleet : GameServerFleet) (gs : GameServer) (log : Log)
    → (settle api fleet gs log).0 ≢ panicked
unfolding settle sync_status complete_update ensure_fleet_service
settle-ne-panicked api fleet gs log = ground arith

steady-ne-panicked :
    (api : Api) (fleet : GameServerFleet) (gs : GameServer) (log : Log)
    → (steady api fleet gs log).0 ≢ panicked
unfolding steady
steady-ne-panicked api fleet gs log =
    let hash = compute_template_hash api.marshal fleet.spec.template in
    ground (
      arith,
      handle_failed-ne-panicked api fleet gs log,
      start-ne-panicked api fleet gs hash log,
      settle-ne-panicked api fleet gs log,
      settle-ne-panicked api fleet gs (Call.patch_server (annotate_hash hash gs) ∷ log),
    )

module _ (api : Api) (fleet : GameServerFleet) where
  -- The pass with a GameServer of the recorded name.
  steady_state_named :
      (items : List GameServer) (gs : GameServer) (log : Log)
      → find_named fleet.status.current_game_server items ≡ some gs
      → handle_steady_state api fleet items log ≡ steady api fleet gs log
  unfolding handle_steady_state find_current
  steady_state_named items gs log h = rw (h, handle_steady_state) refl

  steady_state_many :
      (a b : GameServer) (items : List GameServer) (log : Log)
      → find_named fleet.status.current_game_server (a ∷ b ∷ items) ≡ none
      → handle_steady_state api fleet (a ∷ b ∷ items) log ≡ (panicked, log)
  unfolding handle_steady_state find_current
  steady_state_many a b items log h = rw (h, handle_steady_state) refl

  steady_state_only :
      (gs : GameServer) (log : Log)
      → find_named fleet.status.current_game_server (gs ∷ []) ≡ none
      → handle_steady_state api fleet (gs ∷ []) log ≡ steady api fleet gs log
  unfolding handle_steady_state find_current
  steady_state_only gs log h = rw (h, handle_steady_state) refl

  steady_state_empty :
      (log : Log) → handle_steady_state api fleet [] log ≡ create_game_server api fleet log
  unfolding handle_steady_state find_current find_named
  steady_state_empty log = refl

unnamed :
    (api : Api) (fleet : GameServerFleet) (gs : GameServer) (items : List GameServer) (log : Log)
    → find_named fleet.status.current_game_server (gs ∷ items) ≡ none
    → ((handle_steady_state api fleet (gs ∷ items) log).0 ≡ panicked) ↔ (
        (find_named fleet.status.current_game_server (gs ∷ items) ≡ none)
        × (2 ≤ length (gs ∷ items)))
unnamed api fleet gs [] log h =
    rw (steady_state_only api fleet gs log h)
      (λ p. absurd (steady-ne-panicked api fleet gs log p), λ q. absurd (omega (arith, q.1)))
unnamed api fleet gs (b ∷ items) log h =
    rw (steady_state_many api fleet gs b items log h) (λ p. (h, omega arith), λ q. refl)

-- The pass dereferences nil exactly when the list holds several GameServers and none of them has the
-- name in the fleet's status.
pub handle_steady_state-panicked_iff :
    (api : Api) (fleet : GameServerFleet) (items : List GameServer) (log : Log)
    → ((handle_steady_state api fleet items log).0 ≡ panicked)
      ↔ ((find_named fleet.status.current_game_server items ≡ none) × (2 ≤ length items))
handle_steady_state-panicked_iff api fleet [] log =
    rw (steady_state_empty api fleet log)
      (λ h. absurd (create-ne-panicked api fleet log h), λ h. absurd (omega arith))
handle_steady_state-panicked_iff api fleet (gs ∷ items) log =
    elim (Option-cases (find_named fleet.status.current_game_server (gs ∷ items))) [
      | inr (cur, h) ↦
          rw (steady_state_named api fleet (gs ∷ items) cur log h)
            (λ p. absurd (steady-ne-panicked api fleet cur log p), λ q. absurd (cc (h, q.0)))
      | inl h ↦ unnamed api fleet gs items log h
    ]

-- A current GameServer that is not failed and carries the template's hash is neither updated nor
-- replaced: the pass settles.
pub steady_converged :
    (api : Api) (fleet : GameServerFleet) (gs : GameServer) (log : Log)
    → is_failed gs.status.phase ≡ false
    → get gs.meta.annotations template_hash_annotation
      ≡ compute_template_hash api.marshal fleet.spec.template
    → steady api fleet gs log ≡ settle api fleet gs log
unfolding steady
steady_converged api fleet gs log h e =
    let hash = compute_template_hash api.marshal fleet.spec.template in
    rw (h, e)
      (ground (arith, compute_template_hash-ne-empty api.marshal fleet.spec.template, eq_refl hash))

-- An in-place update of a GameServer that is not failed is made once: a pass over the object that it
-- sent, with the same template, sends no further update of a GameServer and settles.
pub update_converges :
    (api : Api) (fleet : GameServerFleet) (gs : GameServer) (log : Log)
    → is_failed gs.status.phase ≡ false
    → let hash = compute_template_hash api.marshal fleet.spec.template in
      let gs' = apply_template fleet hash gs in steady api fleet gs' log ≡ settle api fleet gs' log
update_converges api fleet gs log h =
    let hash = compute_template_hash api.marshal fleet.spec.template in
    let u = apply_template-IsUpdated fleet hash gs in
    steady_converged api fleet (apply_template fleet hash gs) log (rw u.status h) u.carried
