-- ===== src/Tests/Permissions.antt =====
-- The theorems on the manager's role, at concrete runs.
use gobehost_operator.Prelude.{contains, ◌≡◌, refl, false, [], All}
use gobehost_operator.Kube.{Key, Job}
use gobehost_operator.Adapter.{registry}
use gobehost_operator.Fleet.{reconcile}
use gobehost_operator.Server.{has_finalizer, reconcile_server}
use gobehost_operator.Cluster.{Api, Call, err, ok, other_error, failed_with, count_calls}
use gobehost_operator.Reconciler.{resolve_config}
use gobehost_operator.Backup.{resolve_storage, reconcile_backup}
use gobehost_operator.Backup.LastCopy.{is_update_backup}
use gobehost_operator.Access.{manager_rules, needs, all_granted}
use gobehost_operator.Access.Passes.{Run, Expected, Run-Expected, last_copy_refused}
use gobehost_operator.Backup.Securing.{Targets, Secures}
use gobehost_operator.Access.Guarded.{is_child}
use gobehost_operator.Access.Guarded.Passes.{Unguarded, passes_guarded}
use gobehost_operator.Tests.Samples.{sample_fleet, sample_server, server_with}
use gobehost_operator.Tests.Backups.{platform, leaving, nightly_key, leaving_found, serving}

-- The creation of a Job is not permitted.
create_job_refused : (job : Job) → all_granted manager_rules (needs (Call.create_job job)) ≡ false
create_job_refused job = refl

-- A server with a fleet and its GameServer, and no backup.
abbrev with_fleet : Api
with_fleet = record (server_with []) {
  get_fleet = λ log key. ok sample_fleet;
  get_server = λ log key. ok sample_server;
}

abbrev key : Key
key = record { namespace = "games"; name = "lobby" }

Run-Expected_example :
    All Expected (reconcile_server with_fleet registry key (reconcile with_fleet key []).1).1
Run-Expected_example =
    Run-Expected with_fleet registry "gobehost-system" [] _
      (Run.then_server key (Run.then_fleet key Run.rest)) tt

-- A server that enforces the role.
abbrev enforcing : Api
enforcing = record serving { create_job = λ log job. err other_error }

enforcing-Secures : Secures enforcing nightly_key leaving [] "GameServer" "lobby-gs" leaving_found
enforcing-Secures = record {
  found = refl;
  deleted = refl;
  wanted = refl;
  target = Targets.named refl;
}

last_copy_refused_example :
    ((reconcile_backup enforcing "system" nightly_key []).0 ≡ failed_with other_error)
    × (count_calls is_update_backup (reconcile_backup enforcing "system" nightly_key []).1 ≡ 0)
unfolding resolve_storage
last_copy_refused_example =
    last_copy_refused enforcing "system" nightly_key leaving (resolve_config leaving platform)
      "GameServer" "lobby-gs" [] leaving_found (λ log job h. refl) enforcing-Secures refl refl

passes_guarded_example : count_calls is_child (reconcile_server with_fleet registry key []).1 ≡ 0
unfolding has_finalizer contains
passes_guarded_example =
    passes_guarded with_fleet registry "system" key [] _
      (Unguarded.of_server sample_server refl refl)
