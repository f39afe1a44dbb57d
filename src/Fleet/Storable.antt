-- ===== src/Fleet/Storable.antt =====
-- The statuses of a fleet that the controller writes, against the schema of the resource.
pub mod Passes
use gobehost_operator.Prelude.{
  ℕ, zero, suc, ◌+◌, ◌-◌, ◌≤◌, ◌≡◌, refl, ◌⊎◌, inl, inr, true, false, Bool, Bool-cases, String,
  List, [], ◌∷◌, ◌++◌, Option, none, some, arith, ◌&&◌, leb, length, length-append, drop,
  Option-cases, if◌then◌else◌,
}
use gobehost_operator.Kube.{Time, ConditionStatus}
use gobehost_operator.Api.{GameServer, GracefulShutdownSpec, RolloutRecord, GameServerFleet}
use gobehost_operator.Api.Schema.{record_fits, records_fit, fleet_status_fits}
use gobehost_operator.Cluster.{Call, Log, Api, ok, err, panicked, Response-cases}
use gobehost_operator.Cluster.Footprint.{Extends, Makes, Makes-pure, Makes-known, footprint}
use gobehost_operator.Reconciler.{set_fleet_condition, new_condition}
use gobehost_operator.Reconciler.OneCondition.{IsKeyed, put_condition-IsKeyed}
use gobehost_operator.Fleet.Values.{complete_last, trim_history, find_current, build_game_server}
use gobehost_operator.Fleet.Statuses.{
  is_progressing, synced, completed, started, created, replaced, status_ready, status_not_ready,
  is_failed, with_phase,
}
use gobehost_operator.Fleet.Rollout.{
  send_graceful_shutdown, ensure_fleet_service, create_game_server, handle_failed,
  start_spec_update, complete_update, sync_status, settle, steady, without_current,
  handle_steady_state,
}
use gobehost_operator.Fleet.Lifecycle.{list_owned, active}
use gobehost_operator.Fleet.Footprint.{Makes-send_graceful_shutdown, Makes-ensure_fleet_service}
use gobehost_operator.Fleet.History.{length-trim_history, started-history}

-- The status fits the schema, and its list of conditions has one for each type.
pub record IsStorable (fleet : GameServerFleet) : Type 0 where
  pub schema : fleet_status_fits fleet.status ≡ true
  pub keyed : IsKeyed fleet.status.conditions

module _ {fleet : GameServerFleet} where
  bounded : IsStorable fleet → length fleet.status.history ≤ 10
  unfolding fleet_status_fits
  bounded h = ground (arith, h.schema)

  results : IsStorable fleet → records_fit fleet.status.history ≡ true
  unfolding fleet_status_fits
  results h = ground (arith, h.schema)

module _ (fleet : GameServerFleet) where
  storable :
      length fleet.status.history ≤ 10
      → records_fit fleet.status.history ≡ true
      → IsKeyed fleet.status.conditions
      → IsStorable fleet
  unfolding fleet_status_fits
  storable short fits keyed = record { schema = ground arith; keyed = keyed }

-- What the server stores of a status that fits fits.
abbrev pub StoresStorable : Api → Type 0
StoresStorable api =
    (log : Log) (sent stored : GameServerFleet)
    → api.update_fleet_status log sent ≡ ok stored
    → IsStorable sent
    → IsStorable stored

records_fit-append :
    (h : List RolloutRecord) (r : RolloutRecord)
    → records_fit h ≡ true
    → record_fits r ≡ true
    → records_fit (h ++ r ∷ []) ≡ true
unfolding records_fit
records_fit-append [] r k l = ground arith
records_fit-append (x ∷ h) r k l = ground (arith, records_fit-append h r)

records_fit-drop :
    (n : ℕ) (h : List RolloutRecord) → records_fit h ≡ true → records_fit (drop n h) ≡ true
unfolding records_fit
records_fit-drop zero h k = k
records_fit-drop (suc n) [] k = k
records_fit-drop (suc n) (x ∷ h) k = records_fit-drop n h (ground arith)

records_fit-complete_last :
    (t : Time) (v : String) (h : List RolloutRecord)
    → records_fit h ≡ true
    → records_fit (complete_last t v h) ≡ true
unfolding records_fit record_fits complete_last
records_fit-complete_last t v [] k = k
records_fit-complete_last t v (r ∷ []) k = elim (Option-cases r.completed_at) [
  | inl e ↦ rw (e, complete_last) refl
  | inr (done, e) ↦ rw (e, complete_last) k
]
records_fit-complete_last t v (r ∷ s ∷ h) k = ground (arith, records_fit-complete_last t v (s ∷ h))

records_fit-trim_history :
    (h : List RolloutRecord) → records_fit h ≡ true → records_fit (trim_history h) ≡ true
unfolding trim_history
records_fit-trim_history h k = ground (arith, records_fit-drop (length h - 10) h)

set_fleet_condition-IsStorable :
    (t : Time) (fleet : GameServerFleet) (type : String) (status : ConditionStatus)
    (reason message : String)
    → IsStorable fleet
    → IsStorable (set_fleet_condition t fleet type status reason message)
unfolding set_fleet_condition
set_fleet_condition-IsStorable t fleet type status reason message h =
    storable _ (bounded h) (results h) (put_condition-IsKeyed _ fleet.status.conditions h.keyed)

either :
    (b : Bool) (x y : GameServerFleet)
    → IsStorable x
    → IsStorable y
    → IsStorable (if b then x else y)
either true x y h k = h
either false x y h k = k

module _ (fleet : GameServerFleet) (h : IsStorable fleet) where
  -- The same history and conditions, with other fields changed.
  edited :
      (fleet' : GameServerFleet)
      → fleet'.status.history ≡ fleet.status.history
      → fleet'.status.conditions ≡ fleet.status.conditions
      → IsStorable fleet'
  edited fleet' e f = storable _ (rw e (bounded h)) (rw e (results h)) (rw f h.keyed)

  pub replaced-IsStorable : IsStorable (replaced fleet)
  unfolding replaced
  replaced-IsStorable = edited _ refl refl

module _ (t : Time) (fleet : GameServerFleet) (h : IsStorable fleet) where
  status_ready-IsStorable : IsStorable (status_ready t fleet)
  unfolding status_ready
  status_ready-IsStorable =
      set_fleet_condition-IsStorable t _ _ _ _ _
        (set_fleet_condition-IsStorable t _ _ _ _ _ (edited fleet h _ refl refl))

  status_not_ready-IsStorable : (phase : _) → IsStorable (status_not_ready t phase fleet)
  unfolding status_not_ready
  status_not_ready-IsStorable phase = set_fleet_condition-IsStorable t _ _ _ _ _ (
      either (is_failed phase) _ _
        (set_fleet_condition-IsStorable t _ _ _ _ _ (edited fleet h _ refl refl))
        (set_fleet_condition-IsStorable t _ _ _ _ _ (edited fleet h _ refl refl)))

module _ (t : Time) (fleet : GameServerFleet) (gs : GameServer) (h : IsStorable fleet) where
  pub synced-IsStorable : IsStorable (synced t fleet gs)
  unfolding synced
  synced-IsStorable =
      let now_ready = status_ready-IsStorable t fleet h in
      let unready = status_not_ready-IsStorable t fleet h gs.status.phase in
      let both = either gs.status.ready _ _ now_ready unready in
      storable _ (bounded both) (results both) both.keyed

  pub created-IsStorable : IsStorable (created t fleet gs)
  unfolding created
  created-IsStorable = set_fleet_condition-IsStorable t _ _ _ _ _ (edited fleet h _ refl refl)

  pub completed-IsStorable : IsStorable (completed t fleet gs)
  unfolding completed set_fleet_condition
  completed-IsStorable =
      let history = complete_last t gs.spec.game.version fleet.status.history in
      storable _ (length-trim_history history)
        (records_fit-trim_history history
          (records_fit-complete_last t gs.spec.game.version fleet.status.history (results h)))
        (put_condition-IsKeyed _ _ (put_condition-IsKeyed _ fleet.status.conditions h.keyed))

  started-results : records_fit (started t fleet gs).status.history ≡ true
  unfolding started records_fit record_fits
  started-results = records_fit-append fleet.status.history _ (results h) refl

  started-IsKeyed : IsKeyed (started t fleet gs).status.conditions
  unfolding started set_fleet_condition
  started-IsKeyed = put_condition-IsKeyed _ fleet.status.conditions h.keyed

  -- A rollout that begins with a full history makes it too long, and only such a one.
  pub started-IsStorable :
      IsStorable (started t fleet gs) ⊎ (length (started t fleet gs).status.history ≡ 11)
  started-IsStorable =
      let longer = (started-history t fleet gs).0 in
      let bound = bounded h in
      elim (Bool-cases (leb (length fleet.status.history) 9)) [
        | inl room ↦ inl (storable _ (ground arith) started-results started-IsKeyed)
        | inr full ↦ inr (ground arith)
      ]
