-- ===== src/Server/Chain.antt =====
-- The chain of calls that provides a GameServer: how it ends, and what it makes of existing objects.
use gobehost_operator.Prelude.{
  ◌+◌, ◌≡◌, refl, ◌∙◌, ◌⊎◌, inl, inr, true, false, ◌∷◌, some, arith, Option-cases,
}
use gobehost_operator.Kube.{Key, Service, StatefulSet}
use gobehost_operator.Api.{GameServer}
use gobehost_operator.Cluster.{Call, Log, Api, Response-cases, Outcome, is_error, is_some, ok}
use gobehost_operator.Cluster.{count_calls}
use gobehost_operator.Adapter.{Registry, get_adapter}
use gobehost_operator.Reconciler.{build_service, build_headless_service, build_stateful_set}
use gobehost_operator.Server.Edits.{
  mutate_headless, mutate_service, mutate_stateful_set, provision, has_finalizer,
}
use gobehost_operator.Server.Control.{
  give_up, report, apply_external, apply_workload, apply_headless, provide, reconcile_found,
  reconcile_server,
}
use gobehost_operator.Server.Provision.{is_server_status}

-- The status is written once more, or the outcome is an error.
abbrev Written : Log → Outcome × Log → Type 0
Written log r =
    (count_calls is_server_status r.1 ≡ count_calls is_server_status log + 1)
    ⊎ (is_error r.0 ≡ true)

-- A call that is not a write of the status comes before.
Written-after :
    (call : Call) (log : Log) (r : Outcome × Log)
    → is_server_status call ≡ 0
    → Written (call ∷ log) r
    → Written log r
Written-after call log r h (inl w) = inl (w ∙ ground arith)
Written-after call log r h (inr w) = inr w

report-Written :
    (api : Api) (gs : GameServer) (sts : StatefulSet) (svc : Service) (log : Log)
    → Written log (report api gs sts svc log)
unfolding report
report-Written api gs sts svc log = inl (ground arith)

apply_external-Written :
    (api : Api) (gs : GameServer) (sts : StatefulSet) (log : Log)
    → Written log (apply_external api gs sts log)
unfolding apply_external give_up
apply_external-Written api gs sts log =
    elim (Option-cases (api.set_controller_reference gs.meta (build_service gs).meta)) [
      | inl h ↦ rw (h, apply_external) (inr refl)
      | inr (meta, h) ↦
          rw (h, apply_external)
            (elim (Response-cases (
              api.apply_service log (record (build_service gs) { meta = meta })
                (mutate_service gs))) [
                  | inl (stored, u) ↦ rw u (
                      Written-after
                        (Call.apply_service (record (build_service gs) { meta = meta })
                          (mutate_service gs))
                        log _ refl (report-Written api gs sts stored _))
                  | inr (e, u) ↦ rw u (inr refl)
                ])
    ]

apply_workload-Written :
    (api : Api) (registry : Registry) (gs : GameServer) (log : Log)
    → Written log (apply_workload api registry gs log)
unfolding apply_workload give_up
apply_workload-Written api registry gs log = elim (Option-cases (build_stateful_set registry gs)) [
  | inl b ↦ rw (b, apply_workload) (inr refl)
  | inr (sts, b) ↦
      rw (b, apply_workload)
        (elim (Option-cases (api.set_controller_reference gs.meta sts.meta)) [
          | inl h ↦ rw h (inr refl)
          | inr (meta, h) ↦
              rw h
                (elim (Response-cases (
                  api.apply_stateful_set log (record sts { meta = meta })
                    (mutate_stateful_set registry gs))) [
                      | inl (stored, u) ↦ rw u (
                          Written-after
                            (Call.apply_stateful_set (record sts { meta = meta })
                              (mutate_stateful_set registry gs))
                            log _ refl (apply_external-Written api gs stored _))
                      | inr (e, u) ↦ rw u (inr refl)
                    ])
        ])
]

apply_headless-Written :
    (api : Api) (registry : Registry) (gs : GameServer) (log : Log)
    → Written log (apply_headless api registry gs log)
unfolding apply_headless give_up
apply_headless-Written api registry gs log =
    elim (Option-cases (api.set_controller_reference gs.meta (build_headless_service gs).meta)) [
      | inl h ↦ rw (h, apply_headless) (inr refl)
      | inr (meta, h) ↦
          rw (h, apply_headless)
            (elim (Response-cases (
              api.apply_service log (record (build_headless_service gs) { meta = meta })
                (mutate_headless gs))) [
                  | inl (stored, u) ↦ rw u (
                      Written-after
                        (Call.apply_service (record (build_headless_service gs) { meta = meta })
                          (mutate_headless gs))
                        log _ refl (apply_workload-Written api registry gs _))
                  | inr (e, u) ↦ rw u (inr refl)
                ])
    ]

-- From adapter.Get on, the status is written exactly once, or an error is returned.
pub provide_reports :
    (api : Api) (registry : Registry) (gs : GameServer) (log : Log)
    → (count_calls is_server_status (provide api registry gs log).1
        ≡ count_calls is_server_status log + 1)
      ⊎ (is_error (provide api registry gs log).0 ≡ true)
unfolding provide
provide_reports api registry gs log = elim (Option-cases (get_adapter registry gs)) [
  | inl h ↦ rw (h, provide) (inl (ground arith))
  | inr (a, h) ↦ rw (h, provide) (apply_headless-Written api registry (provision gs) log)
]

-- If a StatefulSet can be built, the edit of an existing one gives it the desired template and service
-- name and leaves its claims and its name; made again, it changes nothing.
pub mutate_stateful_set_idem :
    (registry : Registry) (gs : GameServer) (desired sts : StatefulSet)
    → build_stateful_set registry gs ≡ some desired
    → (edited : StatefulSet) × (mutate_stateful_set registry gs sts ≡ some edited)
      × (mutate_stateful_set registry gs edited ≡ some edited)
      × (edited.template ≡ desired.template)
      × (edited.service_name ≡ desired.service_name)
      × (edited.volume_claim_templates ≡ sts.volume_claim_templates)
      × (edited.meta.name ≡ sts.meta.name)
unfolding mutate_stateful_set
mutate_stateful_set_idem registry gs desired sts h = rw h (_, refl, refl, refl, refl, refl, refl)

-- A pass over a GameServer that holds its finalizer and is not being deleted writes its status
-- exactly once or returns an error.
pub reconcile_server_reports :
    (api : Api) (registry : Registry) (key : Key) (gs : GameServer) (log : Log)
    → api.get_server log key ≡ ok gs
    → is_some gs.meta.deletion_timestamp ≡ false
    → has_finalizer gs ≡ true
    → (count_calls is_server_status (reconcile_server api registry key log).1
        ≡ count_calls is_server_status log + 1)
      ⊎ (is_error (reconcile_server api registry key log).0 ≡ true)
unfolding reconcile_server reconcile_found
reconcile_server_reports api registry key gs log found live held =
    rw (found, live, held)
      (Written-after (Call.get_server key) log _ refl
        (provide_reports api registry gs (Call.get_server key ∷ log)))
