-- ===== src/Access/ServerCalls.antt =====
-- The calls of a pass of the GameServer controller, operation by operation.
use gobehost_operator.Prelude.{String, Option-cases, inl, inr}
use gobehost_operator.Kube.{Key, Service, StatefulSet}
use gobehost_operator.Cluster.{ApiError, Call, Api}
use gobehost_operator.Cluster.Footprint.{Makes, footprint}
use gobehost_operator.Api.{GameServer}
use gobehost_operator.Adapter.{Registry, get_adapter}
use gobehost_operator.Reconciler.{build_service, build_headless_service, build_stateful_set}
use gobehost_operator.Server.{
  give_up, report, apply_external, apply_workload, apply_headless, provide, add_finalizer,
  remove_finalizer, await_scale_down, scale_down, finalize_server, reconcile_found,
  reconcile_server,
}
use gobehost_operator.Access.Role.{Permitted}

module _ {P : Call → Type 0} (permit : (c : Call) → Permitted c → P c) (api : Api) where
  Makes-give_up :
      (gs : GameServer) (reason message : String) (e : ApiError)
      → Makes P (give_up api gs reason message e)
  unfolding give_up
  Makes-give_up gs reason message e = search (footprint, permit)

  Makes-report :
      (gs : GameServer) (sts : StatefulSet) (svc : Service) → Makes P (report api gs sts svc)
  unfolding report
  Makes-report gs sts svc = search (footprint, permit) depth 9

  Makes-apply_external : (gs : GameServer) (sts : StatefulSet) → Makes P (apply_external api gs sts)
  unfolding apply_external
  Makes-apply_external gs sts =
      let svc = build_service gs in
      elim (Option-cases (api.set_controller_reference gs.meta svc.meta)) [
        | inl h ↦ rw (h, apply_external) (search (footprint))
        | inr (meta, h) ↦
            rw (h, apply_external) (search (footprint, permit, Makes-give_up, Makes-report))
      ]

  Makes-apply_workload :
      (registry : Registry) (gs : GameServer) → Makes P (apply_workload api registry gs)
  unfolding apply_workload
  Makes-apply_workload registry gs = elim (Option-cases (build_stateful_set registry gs)) [
    | inl b ↦ rw (b, apply_workload) (search (footprint))
    | inr (sts, b) ↦
        rw (b, apply_workload)
          (elim (Option-cases (api.set_controller_reference gs.meta sts.meta)) [
            | inl h ↦ rw h (search (footprint))
            | inr (meta, h) ↦ rw h (search (footprint, permit, Makes-give_up, Makes-apply_external))
          ])
  ]

  Makes-apply_headless :
      (registry : Registry) (gs : GameServer) → Makes P (apply_headless api registry gs)
  unfolding apply_headless
  Makes-apply_headless registry gs =
      let svc = build_headless_service gs in
      elim (Option-cases (api.set_controller_reference gs.meta svc.meta)) [
        | inl h ↦ rw (h, apply_headless) (search (footprint))
        | inr (meta, h) ↦
            rw (h, apply_headless) (search (footprint, permit, Makes-give_up, Makes-apply_workload))
      ]

  Makes-provide : (registry : Registry) (gs : GameServer) → Makes P (provide api registry gs)
  unfolding provide
  Makes-provide registry gs = elim (Option-cases (get_adapter registry gs)) [
    | inl h ↦ rw (h, provide) (search (footprint, permit))
    | inr (a, h) ↦ rw (h, provide) (search (Makes-apply_headless))
  ]

  Makes-add_finalizer : (gs : GameServer) → Makes P (add_finalizer api gs)
  unfolding add_finalizer
  Makes-add_finalizer gs = search (footprint, permit)

  Makes-remove_finalizer : (gs : GameServer) → Makes P (remove_finalizer api gs)
  unfolding remove_finalizer
  Makes-remove_finalizer gs = search (footprint, permit)

  Makes-await_scale_down :
      (gs : GameServer) (sts : StatefulSet) → Makes P (await_scale_down api gs sts)
  unfolding await_scale_down
  Makes-await_scale_down gs sts = search (footprint, permit, Makes-remove_finalizer)

  Makes-scale_down : (gs : GameServer) (sts : StatefulSet) → Makes P (scale_down api gs sts)
  unfolding scale_down
  Makes-scale_down gs sts = search (footprint, permit, Makes-await_scale_down)

  Makes-finalize_server : (gs : GameServer) → Makes P (finalize_server api gs)
  unfolding finalize_server
  Makes-finalize_server gs = search (footprint, permit, Makes-scale_down, Makes-remove_finalizer)

  Makes-reconcile_found :
      (registry : Registry) (gs : GameServer) → Makes P (reconcile_found api registry gs)
  unfolding reconcile_found
  Makes-reconcile_found registry gs =
      search (footprint, Makes-finalize_server, Makes-add_finalizer, Makes-provide)

  pub Makes-reconcile_server :
      (registry : Registry) (key : Key) → Makes P (reconcile_server api registry key)
  unfolding reconcile_server
  Makes-reconcile_server registry key = search (footprint, permit, Makes-reconcile_found)
