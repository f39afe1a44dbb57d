-- ===== src/Fleet/History.antt =====
-- The rollout history: how it grows, is completed and is cut.
use gobehost_operator.Prelude.{
  ℕ, zero, suc, ◌+◌, ◌-◌, ◌≤◌, ◌<◌, ◌≡◌, refl, ap, ◌∙◌, ◌≢◌, Bool, true, false, String, List, [],
  ◌∷◌, ◌++◌, Option, none, some, arith, length, drop, length-append, length-drop,
}
use gobehost_operator.Kube.{Time}
use gobehost_operator.Api.{
  GameServer, fleet_progressing, fleet_available, RolloutRecord, GameServerFleet,
}
use gobehost_operator.Cluster.{other_error, ok, err, Call, Log, Api, failed_with, is_some}
use gobehost_operator.Fleet.Values.{apply_template, complete_last, trim_history}
use gobehost_operator.Fleet.Statuses.{completed, started}
use gobehost_operator.Fleet.Rollout.{send_graceful_shutdown, start_spec_update}

abbrev pub last : List RolloutRecord → Option RolloutRecord
last [] = none
last (r ∷ []) = some r
last (r ∷ s ∷ rs) = last (s ∷ rs)

abbrev pub is_complete : Option RolloutRecord → Bool
is_complete none = false
is_complete (some r) = is_some r.completed_at

length-complete_last :
    (t : Time) (v : String) (h : List RolloutRecord) → length (complete_last t v h) ≡ length h
unfolding complete_last
length-complete_last t v [] = refl
length-complete_last t v (r ∷ []) = refl
length-complete_last t v (r ∷ s ∷ rs) = ap suc (length-complete_last t v (s ∷ rs))

pub last-complete_last :
    (t : Time) (v : String) (h : List RolloutRecord)
    → h ≢ []
    → is_complete (last (complete_last t v h)) ≡ true
unfolding complete_last
last-complete_last t v [] k = absurd (k refl)
last-complete_last t v (r ∷ []) k = ground arith
last-complete_last t v (r ∷ s ∷ []) k = ground arith
last-complete_last t v (r ∷ s ∷ q ∷ rs) k = last-complete_last t v (s ∷ q ∷ rs) (λ e. cc)

last-drop : (n : ℕ) (h : List RolloutRecord) → n < length h → last (drop n h) ≡ last h
last-drop zero h k = refl
last-drop (suc n) [] k = absurd (omega arith)
last-drop (suc n) (r ∷ []) k = absurd (omega arith)
last-drop (suc n) (r ∷ s ∷ rs) k = last-drop n (s ∷ rs) (omega arith)

pub length-trim_history : (h : List RolloutRecord) → length (trim_history h) ≤ 10
unfolding trim_history
length-trim_history h = ground (arith, length-drop (length h - 10) h)

pub last-trim_history : (h : List RolloutRecord) → last (trim_history h) ≡ last h
unfolding trim_history
last-trim_history h = ground (arith, last-drop (length h - 10) h)

-- After completeUpdate on a history that is not empty the history has ten records at most, the newest
-- is completed, and the phase is Available.
pub completed-history :
    (t : Time) (fleet : GameServerFleet) (gs : GameServer)
    → fleet.status.history ≢ []
    → (length (completed t fleet gs).status.history ≤ 10)
      × (is_complete (last (completed t fleet gs).status.history) ≡ true)
      × ((completed t fleet gs).status.phase ≡ fleet_available)
unfolding completed
completed-history t fleet gs k =
    let h = complete_last t gs.spec.game.version fleet.status.history in
    (
      length-trim_history h,
      rw (last-trim_history h) (last-complete_last t gs.spec.game.version fleet.status.history k),
      refl,
    )

pub last-append : (h : List RolloutRecord) (r : RolloutRecord) → last (h ++ r ∷ []) ≡ some r
last-append [] r = refl
last-append (q ∷ []) r = refl
last-append (q ∷ p ∷ h) r = last-append (p ∷ h) r

abbrev pub opened : Time → GameServerFleet → GameServer → RolloutRecord
opened t fleet gs = record {
  started_at = t;
  completed_at = none;
  from_version = gs.spec.game.version;
  to_version = fleet.spec.template.spec.game.version;
  result = "";
  message = "";
}

-- An update appends one open record, from the version that ran to the version of the template, and
-- sets the phase Progressing.
pub started-history :
    (t : Time) (fleet : GameServerFleet) (gs : GameServer)
    → (length (started t fleet gs).status.history ≡ length fleet.status.history + 1)
      × (last (started t fleet gs).status.history ≡ some (opened t fleet gs))
      × ((started t fleet gs).status.phase ≡ fleet_progressing)
unfolding started
started-history t fleet gs = (
  length-append fleet.status.history (opened t fleet gs ∷ []) ∙ ground arith,
  last-append fleet.status.history (opened t fleet gs),
  refl,
)

-- The resource's schema: `MaxItems=10` of status.history, which the API server enforces.
abbrev pub EnforcesMaxItems : Api → Type 0
EnforcesMaxItems api =
    (log : Log) (fleet : GameServerFleet)
    → 10 < length fleet.status.history
    → api.update_fleet_status log fleet ≡ err other_error

-- With ten records or more in the history and a server that enforces the bound, an update that the
-- server accepts for the GameServer ends in an error: the status is refused.
pub start_spec_update-full_history :
    (api : Api) (fleet : GameServerFleet) (gs gs' : GameServer) (hash : String) (log : Log)
    → EnforcesMaxItems api
    → 10 ≤ length fleet.status.history
    → api.update_server
        (send_graceful_shutdown api fleet.spec.graceful_shutdown gs log).1
        (apply_template fleet hash gs)
      ≡ ok gs'
    → (start_spec_update api fleet gs hash log).0 ≡ failed_with other_error
unfolding start_spec_update
start_spec_update-full_history api fleet gs gs' hash log enforced full stored =
    let warned = (send_graceful_shutdown api fleet.spec.graceful_shutdown gs log).1 in
    let sent : Log = Call.update_server (apply_template fleet hash gs) ∷ warned in
    let written = started (api.now sent) fleet gs in
    rw (stored, enforced sent written (omega (arith, (started-history (api.now sent) fleet gs).0)))
