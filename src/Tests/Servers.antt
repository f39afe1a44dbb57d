-- ===== src/Tests/Servers.antt =====
-- The theorems on the GameServer controller, at a concrete GameServer and server.
use gobehost_operator.Prelude.{◌≡◌, refl, ◌⊎◌, true, [], ◌∷◌, inr, some, contains, insert}
use gobehost_operator.Prelude.Int.{pos}
use gobehost_operator.Kube.{StatefulSet, key_of}
use gobehost_operator.Api.{stopping, game_server_finalizer, GameServer}
use gobehost_operator.Adapter.{registry, minecraft_adapter}
use gobehost_operator.Cluster.{Call, Api, ok, is_error, count_calls, is_update_server}
use gobehost_operator.Cluster.Footprint.{Extends}
use gobehost_operator.Reconciler.{set_phase, build_service, stateful_set_of, build_stateful_set}
use gobehost_operator.Server.{
  mutate_stateful_set, has_finalizer, report, finalize_server, reconcile_found, reconcile_server,
}
use gobehost_operator.Server.Teardown.{ScaledDown, finalize_server_waits}
use gobehost_operator.Server.Release.{Ends, finalize_server-Ends}
use gobehost_operator.Server.Phases.{Follows, reconcile_found-Follows}
use gobehost_operator.Server.Provision.{is_server_status, report_written}
use gobehost_operator.Server.Chain.{reconcile_server_reports}
use gobehost_operator.Server.InPlace.{IsInPlace, admitted_update-IsInPlace}
use gobehost_operator.Webhook.{validate_update}
use gobehost_operator.Tests.Samples.{sample_server, server_with}

abbrev workload : StatefulSet
workload = stateful_set_of sample_server minecraft_adapter

-- A server that has the StatefulSet, with one ready replica.
abbrev busy : Api
busy = record (server_with []) {
  get_stateful_set = λ log key. ok (record workload { ready_replicas = 1 });
}

finalize_server_waits_example :
    (count_calls is_update_server (finalize_server busy sample_server []).1 ≡ 0)
    ⊎ ScaledDown busy sample_server []
finalize_server_waits_example = finalize_server_waits busy sample_server []

report_written_example :
    (w : GameServer) × ((report busy sample_server workload (build_service sample_server) []).1
      ≡ Call.update_server_status w
        ∷ Call.get_service (key_of (build_service sample_server).meta)
        ∷ Call.get_stateful_set (key_of workload.meta)
        ∷ [])
    × (w.status.ready ≡ true)
    × (w.status.observed_generation ≡ 2)
report_written_example = report_written busy sample_server workload (build_service sample_server) []

abbrev held_server : GameServer
held_server = record sample_server {
  meta = record (sample_server.meta) { finalizers = game_server_finalizer ∷ [] };
}

-- A server that has this GameServer.
abbrev holding : Api
holding = record busy { get_server = λ log key. ok held_server }

reconcile_server_reports_example :
    (count_calls is_server_status (reconcile_server holding registry (key_of held_server.meta) []).1
      ≡ 1)
    ⊎ (is_error (reconcile_server holding registry (key_of held_server.meta) []).0 ≡ true)
unfolding has_finalizer contains
reconcile_server_reports_example =
    reconcile_server_reports holding registry (key_of held_server.meta) held_server [] refl refl
      refl

finalize_server-Ends_example :
    Ends (set_phase held_server stopping) 1 (finalize_server busy held_server [])
unfolding has_finalizer contains
finalize_server-Ends_example =
    finalize_server-Ends busy held_server []
      (record { updates = λ log gs. (gs, refl); scales = λ log sts. (sts, refl, refl) }) refl
      (inr (record workload { ready_replicas = 1 }, refl))

reconcile_found-Follows_example :
    Extends (Follows registry sample_server) [] (reconcile_found busy registry sample_server []).1
reconcile_found-Follows_example = reconcile_found-Follows busy registry sample_server []

-- The same GameServer with more storage and another version.
abbrev grown : GameServer
grown = record sample_server {
  spec = record (sample_server.spec) {
    game = record (sample_server.spec.game) { version = "1.22" };
    storage = record (sample_server.spec.storage) { size = pos 2048 };
  };
}

admitted_update-IsInPlace_example :
    (updated wanted : StatefulSet) × (mutate_stateful_set registry grown workload ≡ some updated)
    × (build_stateful_set registry grown ≡ some wanted)
    × IsInPlace workload updated wanted
unfolding mutate_stateful_set registry validate_update insert
admitted_update-IsInPlace_example =
    admitted_update-IsInPlace registry sample_server grown workload workload refl refl refl
