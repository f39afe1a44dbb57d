-- ===== src/Server/Control.antt =====
-- internal/controller/gameserver_controller.go and internal/reconciler/finalizer.go: the methods.
use gobehost_operator.Prelude.{
  false, ◌||◌, not, String, none, some, ltb, eqb, if◌then◌else◌, delete,
}
use gobehost_operator.Kube.{Key, key_of, Service, StatefulSet}
use gobehost_operator.Api.{stopping, GameServer}
use gobehost_operator.Cluster.{
  ApiError, other_error, ok, err, Api, M, pure, ◌>>=◌, ◌>>◌, now, get_server, get_stateful_set,
  get_service, update_server, update_server_status, update_stateful_set, apply_service,
  apply_stateful_set, no_requeue, requeue, requeue_after, Outcome, done, failed_with,
  requeue_on_conflict, is_not_found, is_some,
}
use gobehost_operator.Adapter.{Registry, get_adapter}
use gobehost_operator.Reconciler.{
  build_service, build_headless_service, build_stateful_set, set_phase, set_ready,
}
use gobehost_operator.Server.Edits.{
  requeue_interval, has_finalizer, add_server_finalizer, drop_server_finalizer, mutate_headless,
  mutate_service, mutate_stateful_set, provision, report_workload, report_address,
  observe_generation, adapter_missing, asks_replicas,
}

module _ (api : Api) where
  -- `reconciler.SetReady(gs, false, …); _ = r.Status().Update(ctx, gs); return …, err`
  unfoldable pub give_up : GameServer → String → String → ApiError → M Outcome
  give_up gs reason message e = do
    t ← now api
    update_server_status api (set_ready t gs false reason message)
    pure (failed_with e)

  -- The end of Reconcile, from the reading of the StatefulSet.
  unfoldable pub report : GameServer → StatefulSet → Service → M Outcome
  report gs sts svc = do
    found ← get_stateful_set api (key_of sts.meta)
    t ← now api
    address ← get_service api (key_of svc.meta)
    written ←
        update_server_status api
          (observe_generation (report_address (report_workload t gs found) address))
    elim written [
      | err e ↦ pure (requeue_on_conflict e)
      | ok _ ↦ pure (done (requeue_after requeue_interval))
    ]

  unfoldable pub apply_external : GameServer → StatefulSet → M Outcome
  unfolding build_service mutate_service
  apply_external gs sts =
      let svc = build_service gs in
      elim (api.set_controller_reference gs.meta svc.meta) [
        | none ↦ pure (failed_with other_error)
        | some meta ↦ do
          applied ← apply_service api (record svc { meta = meta }) (mutate_service gs)
          elim applied [
            | err e ↦ give_up gs "ServiceReconcileFailed" "Could not reconcile external Service" e
            | ok stored ↦ report gs sts stored
          ]
      ]

  unfoldable pub apply_workload : Registry → GameServer → M Outcome
  unfolding build_stateful_set mutate_stateful_set
  apply_workload registry gs = elim (build_stateful_set registry gs) [
    | none ↦ pure (failed_with other_error)
    | some sts ↦ elim (api.set_controller_reference gs.meta sts.meta) [
      | none ↦ pure (failed_with other_error)
      | some meta ↦ do
        applied ←
            apply_stateful_set api (record sts { meta = meta }) (mutate_stateful_set registry gs)
        elim applied [
          | err e ↦ give_up gs "StatefulSetReconcileFailed" "Could not reconcile StatefulSet" e
          | ok stored ↦ apply_external gs stored
        ]
    ]
  ]

  unfoldable pub apply_headless : Registry → GameServer → M Outcome
  unfolding build_headless_service mutate_headless
  apply_headless registry gs =
      let svc = build_headless_service gs in
      elim (api.set_controller_reference gs.meta svc.meta) [
        | none ↦ pure (failed_with other_error)
        | some meta ↦ do
          applied ← apply_service api (record svc { meta = meta }) (mutate_headless gs)
          elim applied [
            | err e ↦ give_up gs "ServiceReconcileFailed" "Could not reconcile headless Service" e
            | ok _ ↦ apply_workload registry gs
          ]
      ]

  -- Reconcile of a GameServer with its finalizer, from adapter.Get
  unfoldable pub provide : Registry → GameServer → M Outcome
  provide registry gs = elim (get_adapter registry gs) [
    | none ↦ do
      t ← now api
      update_server_status api (adapter_missing api.quote t gs)
      pure (done (requeue_after 30))
    | some _ ↦ apply_headless registry (provision gs)
  ]

  -- AddFinalizer, of a GameServer that lacks it, and the requeue
  unfoldable pub add_finalizer : GameServer → M Outcome
  add_finalizer gs = do
    updated ← update_server api (add_server_finalizer gs)
    elim updated [ err e ↦ pure (requeue_on_conflict e) | ok _ ↦ pure (done requeue) ]

  -- RemoveFinalizer, and what finalize makes of its answer
  unfoldable pub remove_finalizer : GameServer → M Outcome
  unfolding has_finalizer delete
  remove_finalizer gs =
      if has_finalizer gs
      then (do
        updated ← update_server api (drop_server_finalizer gs)
        elim updated [ err e ↦ pure (requeue_on_conflict e) | ok _ ↦ pure (done no_requeue) ])
      else pure (done no_requeue)

  -- `if sts.Status.ReadyReplicas > 0 { … }` and what follows it
  unfoldable pub await_scale_down : GameServer → StatefulSet → M Outcome
  await_scale_down gs sts =
      if ltb 0 sts.ready_replicas
      then (do update_server_status api gs; pure (done (requeue_after 5)))
      else remove_finalizer gs

  unfoldable pub scale_down : GameServer → StatefulSet → M Outcome
  scale_down gs sts =
      if eqb sts.status_replicas 0 || asks_replicas sts.replicas
      then (do
        updated ← update_stateful_set api (record sts { replicas = some 0 })
        elim updated [
          | err e ↦ pure (requeue_on_conflict e)
          | ok stored ↦ await_scale_down gs stored
        ])
      else await_scale_down gs sts

  -- finalize
  unfoldable pub finalize_server : GameServer → M Outcome
  unfolding set_phase
  finalize_server gs =
      let gs = set_phase gs stopping in
      do
        found ← get_stateful_set api (key_of gs.meta)
        elim found [
          | ok sts ↦ scale_down gs sts
          | err e ↦ if is_not_found e then remove_finalizer gs else pure (failed_with e)
        ]

  -- Reconcile of a GameServer that was read
  unfoldable pub reconcile_found : Registry → GameServer → M Outcome
  unfolding has_finalizer
  reconcile_found registry gs =
      if is_some gs.meta.deletion_timestamp
      then finalize_server gs
      else if not (has_finalizer gs)
      then add_finalizer gs
      else provide registry gs

  -- Reconcile
  unfoldable pub reconcile_server : Registry → Key → M Outcome
  reconcile_server registry key = do
    found ← get_server api key
    elim found [
      | ok gs ↦ reconcile_found registry gs
      | err e ↦ pure (if is_not_found e then done no_requeue else failed_with e)
    ]
