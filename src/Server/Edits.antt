-- ===== src/Server/Edits.antt =====
-- internal/controller/gameserver_controller.go and internal/reconciler/finalizer.go: the edits of objects.
use gobehost_operator.Prelude.{
  ℕ, Bool, true, false, not, String, ◌<>◌, [], ◌∷◌, ◌++◌, Option, none, some, leb, eqb,
  if◌then◌else◌, contains, delete,
}
use gobehost_operator.Kube.{Time, Service, StatefulSet}
use gobehost_operator.Api.{
  GameServerPhase, unset, pending, provisioning, running, failed, game_server_finalizer, GameServer,
}
use gobehost_operator.Cluster.{Response, ok, err}
use gobehost_operator.Adapter.{Registry}
use gobehost_operator.Reconciler.{
  build_service, build_headless_service, build_stateful_set, set_phase, set_ready, update_address,
}

-- requeueInterval
abbrev pub requeue_interval : ℕ
requeue_interval = 30

-- HasFinalizer
unfoldable pub has_finalizer : GameServer → Bool
unfolding contains
has_finalizer gs = contains gs.meta.finalizers game_server_finalizer

abbrev pub add_server_finalizer : GameServer → GameServer
add_server_finalizer gs = record gs {
  meta = record (gs.meta) { finalizers = gs.meta.finalizers ++ game_server_finalizer ∷ [] };
}

abbrev pub drop_server_finalizer : GameServer → GameServer
drop_server_finalizer gs = record gs {
  meta = record (gs.meta) { finalizers = delete gs.meta.finalizers game_server_finalizer };
}

-- The edits that the three CreateOrUpdate calls make of what they find.
unfoldable pub mutate_headless : GameServer → Service → Service
unfolding build_headless_service
mutate_headless gs svc =
    let desired = build_headless_service gs in
    record svc {
      meta = record (svc.meta) { labels = desired.meta.labels };
      selector = desired.selector;
      ports = desired.ports;
    }

unfoldable pub mutate_service : GameServer → Service → Service
unfolding build_service
mutate_service gs svc =
    let desired = build_service gs in
    record svc {
      meta = record (svc.meta) {
        labels = desired.meta.labels;
        annotations = desired.meta.annotations;
      };
      type = desired.type;
      selector = desired.selector;
      ports = desired.ports;
    }

abbrev take_desired : Option StatefulSet → StatefulSet → Option StatefulSet
take_desired none sts = none
take_desired (some desired) sts = some (record sts {
  meta = record (sts.meta) { labels = desired.meta.labels };
  replicas = desired.replicas;
  selector = desired.selector;
  service_name = desired.service_name;
  template = desired.template;
  update_strategy = desired.update_strategy;
})

unfoldable pub mutate_stateful_set : Registry → GameServer → StatefulSet → Option StatefulSet
unfolding build_stateful_set
mutate_stateful_set registry gs sts = take_desired (build_stateful_set registry gs) sts

-- `Phase == "" || Phase == Pending`
abbrev pub is_new : GameServerPhase → Bool
is_new unset = true
is_new pending = true
is_new _ = false

unfoldable pub provision : GameServer → GameServer
unfolding set_phase
provision gs = if is_new gs.status.phase then set_phase gs provisioning else gs

-- What the pass reports of the StatefulSet that it read.
unfoldable pub report_workload : Time → GameServer → Response StatefulSet → GameServer
unfolding set_phase set_ready
report_workload t gs (err _) = gs
report_workload t gs (ok sts) =
    if leb 1 sts.ready_replicas
    then set_ready t (set_phase gs running) true "Available" "GameServer is running"
    else set_ready t gs false "Provisioning" "StatefulSet not ready"

unfoldable pub report_address : GameServer → Response Service → GameServer
unfolding update_address
report_address gs (err _) = gs
report_address gs (ok svc) = update_address gs svc

abbrev pub observe_generation : GameServer → GameServer
observe_generation gs = record gs {
  status = record (gs.status) { observed_generation = gs.meta.generation };
}

unfoldable pub adapter_missing : (String → String) → Time → GameServer → GameServer
unfolding set_phase set_ready
adapter_missing quote t gs =
    set_ready t (set_phase gs failed) false "AdapterNotFound"
      ("No adapter for game type " <> quote gs.spec.game.type)

-- `*sts.Spec.Replicas != 0`, for a pointer that is not nil
abbrev pub asks_replicas : Option ℕ → Bool
asks_replicas none = false
asks_replicas (some n) = not (eqb n 0)
