-- ===== src/Fleet/Report.antt =====
-- The status of a fleet that has a GameServer: what syncStatus and completeUpdate report.
use gobehost_operator.Prelude.{
  ℕ, ◌≡◌, refl, Bool, true, false, String, Option, none, some, arith, if◌then◌else◌,
}
use gobehost_operator.Kube.{
  Time, ConditionStatus, condition_true, condition_false, condition_unknown, Condition,
}
use gobehost_operator.Api.{
  GameServerPhase, failed, GameServer, FleetPhase, fleet_available, fleet_degraded, fleet_failed,
  fleet_available_condition, fleet_degraded_condition, GameServerFleet,
}
use gobehost_operator.Cluster.{Log, Api, ◌>>=◌}
use gobehost_operator.Fleet.Statuses.{
  mutate_fleet_service, is_failed, is_progressing, synced, completed, status_ready,
  status_not_ready,
}
use gobehost_operator.Fleet.Rollout.{ensure_fleet_service, complete_update, sync_status, settle}
use gobehost_operator.Reconciler.OneCondition.{find_condition, find-put_condition}
use gobehost_operator.Reconciler.{build_fleet_service}

abbrev pub status_of : Option Condition → ConditionStatus
status_of none = condition_unknown
status_of (some c) = c.status

abbrev pub reported : String → GameServerFleet → ConditionStatus
reported t fleet = status_of (find_condition t fleet.status.conditions)

-- What the status of a fleet says about a GameServer of this readiness and phase.
pub record Reports (fleet : GameServerFleet) (ready : Bool) (phase : GameServerPhase) : Type 0 where
  pub replicas : fleet.status.ready_replicas ≡ (if ready then 1 else 0)
  pub summary : fleet.status.phase ≡ (
      if ready then fleet_available else if is_failed phase then fleet_failed else fleet_degraded)
  pub available :
      reported fleet_available_condition fleet ≡ (if ready then condition_true else condition_false)
  pub observed : fleet.status.observed_generation ≡ fleet.meta.generation

abbrev observe : GameServerFleet → GameServerFleet
observe fleet = record fleet {
  status = record (fleet.status) { observed_generation = fleet.meta.generation };
}

observe-Reports :
    (t : Time) (fleet : GameServerFleet) (ready : Bool) (phase : GameServerPhase)
    → Reports
        (observe (if ready then status_ready t fleet else status_not_ready t phase fleet))
        ready
        phase
unfolding status_ready status_not_ready
observe-Reports t fleet true phase = record {
  replicas = refl;
  summary = refl;
  available = simp find-put_condition;
  observed = refl;
}
observe-Reports t fleet false failed = record {
  replicas = refl;
  summary = refl;
  available = simp find-put_condition;
  observed = refl;
}
observe-Reports t fleet false _ = record {
  replicas = refl;
  summary = refl;
  available = simp find-put_condition;
  observed = refl;
}

-- The status that syncStatus writes counts the GameServer as a replica, is in phase Available and
-- has the condition Available exactly if the GameServer is ready; else its phase is Failed for a
-- failed GameServer and Degraded for any other. It is that of the fleet's present generation.
pub synced-Reports :
    (t : Time) (fleet : GameServerFleet) (gs : GameServer)
    → Reports (synced t fleet gs) gs.status.ready gs.status.phase
unfolding synced
synced-Reports t fleet gs = observe-Reports t fleet gs.status.ready gs.status.phase

-- syncStatus of a ready GameServer leaves the condition Degraded as it was.
pub synced_keeps_degraded :
    (t : Time) (fleet : GameServerFleet) (gs : GameServer)
    → gs.status.ready ≡ true
    → find_condition fleet_degraded_condition (synced t fleet gs).status.conditions
      ≡ find_condition fleet_degraded_condition fleet.status.conditions
unfolding synced status_ready
synced_keeps_degraded t fleet gs h = rw h (simp find-put_condition)

not_progressing :
    (phase : FleetPhase) (p : GameServerPhase) (ready : Bool)
    → ready ≡ false
    → phase
      ≡ (if ready then fleet_available else if is_failed p then fleet_failed else fleet_degraded)
    → is_progressing phase ≡ false
not_progressing phase p ready h e = ground arith

-- From the status that syncStatus writes for a GameServer that is not ready, the end of a later pass
-- does not complete the rollout, whatever its GameServer: it is syncStatus and then the Service.
pub rollout_forgotten :
    (api : Api) (t : Time) (fleet : GameServerFleet) (gs later : GameServer) (log : Log)
    → gs.status.ready ≡ false
    → settle api (synced t fleet gs) later log
      ≡ (sync_status api (synced t fleet gs) (some later) >>= λ f. ensure_fleet_service api f later)
          log
unfolding settle
rollout_forgotten api t fleet gs later log h =
    rw (not_progressing _ _ _ h (synced-Reports t fleet gs).summary)

-- What the pass does with a GameServer does not depend on the generation that the GameServer's
-- controller has observed.
pub settle_ignores_observed :
    (api : Api) (fleet : GameServerFleet) (gs : GameServer) (n : ℕ) (log : Log)
    → let stale = record gs { status = record (gs.status) { observed_generation = n } } in
      settle api fleet stale log ≡ settle api fleet gs log
unfolding settle sync_status complete_update ensure_fleet_service synced completed
    build_fleet_service mutate_fleet_service
settle_ignores_observed api fleet gs n log = refl
