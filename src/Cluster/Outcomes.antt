-- ===== src/Cluster/Outcomes.antt =====
-- What Reconcile returns.
use gobehost_operator.Prelude.{ℕ, Bool, true, false, Option, none, some}
use gobehost_operator.Cluster.Interface.{ApiError, not_found, conflict, other_error}

-- ctrl.Result; `requeue_after` is in seconds
pub data Requeue : Type 0 where
  no_requeue requeue : Requeue
  requeue_after : ℕ → Requeue

-- `panicked` is a nil dereference.
pub data Outcome : Type 0 where
  done : Requeue → Outcome
  failed_with : ApiError → Outcome
  panicked : Outcome

-- `if errors.IsConflict(err) { return ctrl.Result{Requeue: true}, nil }; return ctrl.Result{}, err`
abbrev pub requeue_on_conflict : ApiError → Outcome
requeue_on_conflict conflict = done requeue
requeue_on_conflict not_found = failed_with not_found
requeue_on_conflict other_error = failed_with other_error

-- errors.IsNotFound
abbrev pub is_not_found : ApiError → Bool
is_not_found not_found = true
is_not_found conflict = false
is_not_found other_error = false

-- `!meta.DeletionTimestamp.IsZero()`
abbrev pub is_some {ℓ} : {A : Type ℓ} → Option A → Bool
is_some none = false
is_some (some a) = true

-- Reconcile returned an error.
abbrev pub is_error : Outcome → Bool
is_error (done r) = false
is_error (failed_with e) = true
is_error panicked = false
