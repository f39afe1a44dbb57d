-- ===== src/Access/Isolation/ServerCalls.antt =====
-- The namespaces of the calls of the GameServer controller.
use gobehost_operator.Prelude.{
  ◌≡◌, refl, ◌∙◌, String, Option-cases, inl, inr, Bool-cases, leb, arith, some,
}
use gobehost_operator.Kube.{Time, Key, Service, StatefulSet}
use gobehost_operator.Cluster.{ApiError, Response, ok, err, Api}
use gobehost_operator.Cluster.Footprint.{Makes, footprint}
use gobehost_operator.Api.{GameServer}
use gobehost_operator.Adapter.{Registry, get_adapter}
use gobehost_operator.Reconciler.{
  build_service, build_headless_service, build_stateful_set, set_ready, set_condition, set_phase,
  update_address-meta, stateful_set_of,
}
use gobehost_operator.Server.{
  give_up, report, apply_external, apply_workload, apply_headless, provide, add_finalizer,
  remove_finalizer, await_scale_down, scale_down, finalize_server, reconcile_found,
  reconcile_server, report_workload, report_address, observe_generation, adapter_missing, provision,
}
use gobehost_operator.Access.Isolation.{Within, Confines}
use gobehost_operator.Access.Isolation.Rules.{
  then_get_server, then_get_stateful_set, then_apply_service, then_apply_stateful_set,
}

report_address-meta :
    (gs : GameServer) (found : Response Service) → (report_address gs found).meta ≡ gs.meta
unfolding report_address
report_address-meta gs (err e) = refl
report_address-meta gs (ok svc) = update_address-meta gs svc

report_workload-meta :
    (t : Time) (gs : GameServer) (found : Response StatefulSet)
    → (report_workload t gs found).meta ≡ gs.meta
unfolding report_workload set_ready set_condition set_phase
report_workload-meta t gs (err e) = refl
report_workload-meta t gs (ok sts) = elim (Bool-cases (leb 1 sts.ready_replicas)) [
  | inl e ↦ rw e refl
  | inr e ↦ rw e refl
]

provision-meta : (gs : GameServer) → (provision gs).meta ≡ gs.meta
unfolding provision set_phase
provision-meta gs = ground arith

build_stateful_set-namespace :
    (registry : Registry) (gs : GameServer) (sts : StatefulSet)
    → build_stateful_set registry gs ≡ some sts
    → sts.meta.namespace ≡ gs.meta.namespace
unfolding build_stateful_set stateful_set_of
build_stateful_set-namespace registry gs sts h = ground arith

module _ {api : Api} (confines : Confines api) {system ns : String} where
  Within-give_up :
      (gs : GameServer) (reason message : String) (e : ApiError)
      → gs.meta.namespace ≡ ns
      → Makes (Within system ns) (give_up api gs reason message e)
  unfolding give_up set_ready set_condition
  Within-give_up gs reason message e h = search (footprint, h)

  Within-report :
      (gs : GameServer) (sts : StatefulSet) (svc : Service)
      → gs.meta.namespace ≡ ns
      → sts.meta.namespace ≡ ns
      → svc.meta.namespace ≡ ns
      → Makes (Within system ns) (report api gs sts svc)
  unfolding report
  Within-report gs sts svc h hs hv =
      let written : (t : Time) (found : Response StatefulSet) (address : Response Service)
          → (observe_generation
              (report_address (report_workload t gs found) address)).meta.namespace
            ≡ ns =
        λ t found address. rw (report_address-meta, report_workload-meta) h in
      search (footprint, written, hs, hv) depth 9

  Within-apply_external :
      (gs : GameServer) (sts : StatefulSet)
      → gs.meta.namespace ≡ ns
      → sts.meta.namespace ≡ ns
      → Makes (Within system ns) (apply_external api gs sts)
  unfolding apply_external build_service
  Within-apply_external gs sts h hs =
      let svc = build_service gs in
      elim (Option-cases (api.set_controller_reference gs.meta svc.meta)) [
        | inl e ↦ rw (e, apply_external) (search (footprint))
        | inr (meta, e) ↦
            let named : meta.namespace ≡ ns = confines.controlled gs.meta svc.meta meta e ∙ h in
            rw (e, apply_external)
              (search (then_apply_service confines, Within-give_up, Within-report, named, h, hs))
      ]

  Within-apply_workload :
      (registry : Registry) (gs : GameServer)
      → gs.meta.namespace ≡ ns
      → Makes (Within system ns) (apply_workload api registry gs)
  unfolding apply_workload
  Within-apply_workload registry gs h = elim (Option-cases (build_stateful_set registry gs)) [
    | inl b ↦ rw (b, apply_workload) (search (footprint))
    | inr (sts, b) ↦
        rw (b, apply_workload)
          (elim (Option-cases (api.set_controller_reference gs.meta sts.meta)) [
            | inl e ↦ rw e (search (footprint))
            | inr (meta, e) ↦
                let named : meta.namespace ≡ ns =
                  confines.controlled gs.meta sts.meta meta e
                  ∙ (build_stateful_set-namespace registry gs sts b ∙ h) in
                rw e (
                  search (
                    then_apply_stateful_set confines,
                    Within-give_up,
                    Within-apply_external,
                    named,
                    h,
                  ))
          ])
  ]

  Within-apply_headless :
      (registry : Registry) (gs : GameServer)
      → gs.meta.namespace ≡ ns
      → Makes (Within system ns) (apply_headless api registry gs)
  unfolding apply_headless build_headless_service
  Within-apply_headless registry gs h =
      let svc = build_headless_service gs in
      elim (Option-cases (api.set_controller_reference gs.meta svc.meta)) [
        | inl e ↦ rw (e, apply_headless) (search (footprint))
        | inr (meta, e) ↦
            let named : meta.namespace ≡ ns = confines.controlled gs.meta svc.meta meta e ∙ h in
            rw (e, apply_headless)
              (search (footprint, Within-give_up, Within-apply_workload, named, h))
      ]

  Within-provide :
      (registry : Registry) (gs : GameServer)
      → gs.meta.namespace ≡ ns
      → Makes (Within system ns) (provide api registry gs)
  unfolding provide adapter_missing set_ready set_condition set_phase
  Within-provide registry gs h = elim (Option-cases (get_adapter registry gs)) [
    | inl e ↦ rw (e, provide) (search (footprint, h))
    | inr (a, e) ↦
        rw (e, provide) (Within-apply_headless registry (provision gs) (rw (provision-meta gs) h))
  ]

  Within-add_finalizer :
      (gs : GameServer) → gs.meta.namespace ≡ ns → Makes (Within system ns) (add_finalizer api gs)
  unfolding add_finalizer
  Within-add_finalizer gs h = search (footprint, h)

  Within-remove_finalizer :
      (gs : GameServer)
      → gs.meta.namespace ≡ ns
      → Makes (Within system ns) (remove_finalizer api gs)
  unfolding remove_finalizer
  Within-remove_finalizer gs h = search (footprint, h)

  Within-await_scale_down :
      (gs : GameServer) (sts : StatefulSet)
      → gs.meta.namespace ≡ ns
      → Makes (Within system ns) (await_scale_down api gs sts)
  unfolding await_scale_down
  Within-await_scale_down gs sts h = search (footprint, h, Within-remove_finalizer)

  Within-scale_down :
      (gs : GameServer) (sts : StatefulSet)
      → gs.meta.namespace ≡ ns
      → sts.meta.namespace ≡ ns
      → Makes (Within system ns) (scale_down api gs sts)
  unfolding scale_down
  Within-scale_down gs sts h hs = search (footprint, h, hs, Within-await_scale_down)

  Within-finalize_server :
      (gs : GameServer) → gs.meta.namespace ≡ ns → Makes (Within system ns) (finalize_server api gs)
  unfolding finalize_server set_phase
  Within-finalize_server gs h =
      search
        (then_get_stateful_set confines, footprint, Within-scale_down, Within-remove_finalizer, h)

  Within-reconcile_found :
      (registry : Registry) (gs : GameServer)
      → gs.meta.namespace ≡ ns
      → Makes (Within system ns) (reconcile_found api registry gs)
  unfolding reconcile_found
  Within-reconcile_found registry gs h =
      search (footprint, h, Within-finalize_server, Within-add_finalizer, Within-provide)

  pub Within-reconcile_server :
      (registry : Registry) (key : Key)
      → key.namespace ≡ ns
      → Makes (Within system ns) (reconcile_server api registry key)
  unfolding reconcile_server
  Within-reconcile_server registry key h =
      search (then_get_server confines, footprint, Within-reconcile_found, h)
