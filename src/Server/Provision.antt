-- ===== src/Server/Provision.antt =====
-- Providing a GameServer: its finalizer first, its objects, and the status of every pass.
use gobehost_operator.Prelude.{
  ℕ, ◌≡◌, refl, ◌∙◌, inl, inr, Bool, true, ◌||◌, not, ◌∷◌, some, arith, leb, eqb, Bool-cases,
}
use gobehost_operator.Kube.{Time, key_of, Service, StatefulSet}
use gobehost_operator.Api.{stopping, GameServer}
use gobehost_operator.Cluster.{
  not_found, conflict, other_error, Response, ok, err, Call, Log, Api, Response-cases, is_some,
}
use gobehost_operator.Cluster.{count_calls}
use gobehost_operator.Adapter.{Registry}
use gobehost_operator.Reconciler.{set_condition, set_phase, set_ready, update_address}
use gobehost_operator.Server.Edits.{
  has_finalizer, report_workload, report_address, observe_generation, asks_replicas,
}
use gobehost_operator.Server.Control.{
  report, add_finalizer, remove_finalizer, await_scale_down, scale_down, finalize_server,
  reconcile_found,
}

-- CreateOrUpdate of a child object, of any kind
abbrev pub is_apply : Call → ℕ
is_apply (Call.apply_service _ _) = 1
is_apply (Call.apply_stateful_set _ _) = 1
is_apply _ = 0

abbrev pub is_server_status : Call → ℕ
is_server_status (Call.update_server_status _) = 1
is_server_status _ = 0

remove_finalizer-is_apply :
    (api : Api) (gs : GameServer) (log : Log)
    → count_calls is_apply (remove_finalizer api gs log).1 ≡ count_calls is_apply log
unfolding remove_finalizer
remove_finalizer-is_apply api gs log = ground arith

await_scale_down-is_apply :
    (api : Api) (gs : GameServer) (sts : StatefulSet) (log : Log)
    → count_calls is_apply (await_scale_down api gs sts log).1 ≡ count_calls is_apply log
unfolding await_scale_down
await_scale_down-is_apply api gs sts log = ground (arith, remove_finalizer-is_apply api gs log)

scale_down-is_apply :
    (api : Api) (gs : GameServer) (sts : StatefulSet) (log : Log)
    → count_calls is_apply (scale_down api gs sts log).1 ≡ count_calls is_apply log
unfolding scale_down
scale_down-is_apply api gs sts log =
    elim (Bool-cases (eqb sts.status_replicas 0 || asks_replicas sts.replicas)) [
      | inr h ↦ rw h (await_scale_down-is_apply api gs sts log)
      | inl h ↦
          rw h
            (elim (Response-cases
              (api.update_stateful_set log (record sts { replicas = some 0 }))) [
                | inr (e, u) ↦ rw u (ground arith)
                | inl (stored, u) ↦ rw u (await_scale_down-is_apply api gs stored _ ∙ ground arith)
              ])
    ]

finalize_server-is_apply :
    (api : Api) (gs : GameServer) (log : Log)
    → count_calls is_apply (finalize_server api gs log).1 ≡ count_calls is_apply log
unfolding finalize_server set_phase
finalize_server-is_apply api gs log =
    elim (Response-cases (api.get_stateful_set log (key_of gs.meta))) [
      | inl (sts, h) ↦ rw h (scale_down-is_apply api (set_phase gs stopping) sts _ ∙ ground arith)
      | inr (not_found, h) ↦
          rw h (remove_finalizer-is_apply api (set_phase gs stopping) _ ∙ ground arith)
      | inr (conflict, h) ↦ rw h (ground arith)
      | inr (other_error, h) ↦ rw h (ground arith)
    ]

-- For a GameServer that lacks the finalizer or is being deleted no CreateOrUpdate is called.
pub reconcile_found_guarded :
    (api : Api) (registry : Registry) (gs : GameServer) (log : Log)
    → (is_some gs.meta.deletion_timestamp || not (has_finalizer gs)) ≡ true
    → count_calls is_apply (reconcile_found api registry gs log).1 ≡ count_calls is_apply log
unfolding reconcile_found add_finalizer
reconcile_found_guarded api registry gs log h = ground (arith, finalize_server-is_apply api gs log)

-- What a pass knows of the workload: the ready replicas of the StatefulSet that it read, or what the
-- status said before if it could not be read.
abbrev pub is_up : Response StatefulSet → GameServer → Bool
is_up (ok sts) gs = leb 1 sts.ready_replicas
is_up (err _) gs = gs.status.ready

report_workload-ready :
    (t : Time) (gs : GameServer) (found : Response StatefulSet)
    → (report_workload t gs found).status.ready ≡ is_up found gs
unfolding report_workload set_ready set_condition set_phase
report_workload-ready t gs (err _) = refl
report_workload-ready t gs (ok sts) = ground arith

report_address-ready :
    (gs : GameServer) (address : Response Service)
    → (report_address gs address).status.ready ≡ gs.status.ready
unfolding report_address update_address
report_address-ready gs (err _) = refl
report_address-ready gs (ok svc) = ground arith

report_workload-generation :
    (t : Time) (gs : GameServer) (found : Response StatefulSet)
    → (report_workload t gs found).meta.generation ≡ gs.meta.generation
unfolding report_workload set_ready set_condition set_phase
report_workload-generation t gs (err _) = refl
report_workload-generation t gs (ok sts) = ground arith

report_address-generation :
    (gs : GameServer) (address : Response Service)
    → (report_address gs address).meta.generation ≡ gs.meta.generation
unfolding report_address update_address
report_address-generation gs (err _) = refl
report_address-generation gs (ok svc) = ground arith

-- The end of a pass reads the StatefulSet and the Service and then writes a status of the present
-- generation, ready exactly if the StatefulSet read has a ready replica; if it could not be read, the
-- readiness is that of before.
pub report_written :
    (api : Api) (gs : GameServer) (sts : StatefulSet) (svc : Service) (log : Log)
    → let found = api.get_stateful_set log (key_of sts.meta) in
      (w : GameServer) × ((report api gs sts svc log).1
        ≡ Call.update_server_status w
          ∷ Call.get_service (key_of svc.meta)
          ∷ Call.get_stateful_set (key_of sts.meta)
          ∷ log)
      × (w.status.ready ≡ is_up found gs)
      × (w.status.observed_generation ≡ gs.meta.generation)
unfolding report
report_written api gs sts svc log =
    let found = api.get_stateful_set log (key_of sts.meta) in
    let read : Log = Call.get_stateful_set (key_of sts.meta) ∷ log in
    let gs' = report_workload (api.now read) gs found in
    let address = api.get_service read (key_of svc.meta) in
    (
      observe_generation (report_address gs' address),
      ground arith,
      report_address-ready gs' address ∙ report_workload-ready (api.now read) gs found,
      report_address-generation gs' address ∙ report_workload-generation (api.now read) gs found,
    )
