-- ===== src/Server/Phases.antt =====
-- The phases of a GameServer as an abstract machine, and that a pass follows it.
use gobehost_operator.Prelude.{
  ◌≡◌, refl, inl, inr, true, String, none, some, leb, not, Bool-cases, Option-cases,
}
use gobehost_operator.Kube.{Time, Service, StatefulSet}
use gobehost_operator.Api.{GameServerPhase, provisioning, running, stopping, failed, GameServer}
use gobehost_operator.Cluster.{ApiError, Response, ok, err, Call, Log, Api, is_some}
use gobehost_operator.Cluster.Footprint.{Extends, Makes, Makes-if, footprint}
use gobehost_operator.Adapter.{GameAdapter, Registry, get_adapter}
use gobehost_operator.Reconciler.{
  build_service, build_headless_service, build_stateful_set, set_phase, set_ready,
  update_address-phase,
}
use gobehost_operator.Server.Edits.{
  is_new, provision, has_finalizer, report_workload, report_address, observe_generation,
  adapter_missing,
}
use gobehost_operator.Server.Control.{
  give_up, report, apply_external, apply_workload, apply_headless, provide, add_finalizer,
  remove_finalizer, await_scale_down, scale_down, finalize_server, reconcile_found,
}

-- The phases that a pass over a GameServer may report: the one it had; Provisioning, if it was new, or
-- Running, if there is an adapter for its game; Failed, if there is none; Stopping, if it is being
-- deleted.
pub data Reports (registry : Registry) (gs : GameServer) : GameServerPhase → Type 0 where
  kept : Reports registry gs gs.status.phase
  provisions :
      (a : GameAdapter)
      → get_adapter registry gs ≡ some a
      → is_new gs.status.phase ≡ true
      → Reports registry gs provisioning
  runs : (a : GameAdapter) → get_adapter registry gs ≡ some a → Reports registry gs running
  fails : get_adapter registry gs ≡ none → Reports registry gs failed
  stops : is_some gs.meta.deletion_timestamp ≡ true → Reports registry gs stopping

-- The call, where it writes the status of a GameServer, reports such a phase.
abbrev pub Follows : Registry → GameServer → Call → Type 0
Follows registry gs (Call.update_server_status written) = Reports registry gs written.status.phase
Follows registry gs _ = Unit

report_address-phase :
    (gs : GameServer) (found : Response Service)
    → (report_address gs found).status.phase ≡ gs.status.phase
unfolding report_address
report_address-phase gs (err e) = refl
report_address-phase gs (ok svc) = update_address-phase gs svc

module _ (api : Api) (registry : Registry) (gs : GameServer) where
  Follows-give_up :
      (gs' : GameServer) (reason message : String) (e : ApiError)
      → Reports registry gs gs'.status.phase
      → Makes (Follows registry gs) (give_up api gs' reason message e)
  unfolding give_up set_ready
  Follows-give_up gs' reason message e m = search (footprint, m)

  reported :
      (t : Time) (gs' : GameServer) (found : Response StatefulSet) (address : Response Service)
      (a : GameAdapter)
      → get_adapter registry gs ≡ some a
      → Reports registry gs gs'.status.phase
      → Reports registry gs
          (observe_generation (report_address (report_workload t gs' found) address)).status.phase
  unfolding report_workload set_phase set_ready
  reported t gs' (err e) address a h m = rw (report_address-phase gs' address) m
  reported t gs' (ok sts) address a h m = elim (Bool-cases (leb 1 sts.ready_replicas)) [
    | inl l ↦ rw (l, report_address-phase) (runs a h)
    | inr l ↦ rw (l, report_address-phase) m
  ]

  Follows-report :
      (gs' : GameServer) (sts : StatefulSet) (svc : Service) (a : GameAdapter)
      → get_adapter registry gs ≡ some a
      → Reports registry gs gs'.status.phase
      → Makes (Follows registry gs) (report api gs' sts svc)
  unfolding report
  Follows-report gs' sts svc a h m =
      let written : (t : Time) (found : Response StatefulSet) (address : Response Service)
          → Reports registry gs
              (observe_generation
                (report_address (report_workload t gs' found) address)).status.phase =
        λ t found address. reported t gs' found address a h m in
      search (footprint, written) depth 9

  Follows-apply_external :
      (gs' : GameServer) (sts : StatefulSet) (a : GameAdapter)
      → get_adapter registry gs ≡ some a
      → Reports registry gs gs'.status.phase
      → Makes (Follows registry gs) (apply_external api gs' sts)
  unfolding apply_external
  Follows-apply_external gs' sts a h m =
      let svc = build_service gs' in
      elim (Option-cases (api.set_controller_reference gs'.meta svc.meta)) [
        | inl e ↦ rw (e, apply_external) (search (footprint))
        | inr (meta, e) ↦
            rw (e, apply_external) (search (footprint, Follows-give_up, Follows-report, h, m))
      ]

  Follows-apply_workload :
      (gs' : GameServer) (a : GameAdapter)
      → get_adapter registry gs ≡ some a
      → Reports registry gs gs'.status.phase
      → Makes (Follows registry gs) (apply_workload api registry gs')
  unfolding apply_workload
  Follows-apply_workload gs' a h m = elim (Option-cases (build_stateful_set registry gs')) [
    | inl b ↦ rw (b, apply_workload) (search (footprint))
    | inr (sts, b) ↦
        rw (b, apply_workload)
          (elim (Option-cases (api.set_controller_reference gs'.meta sts.meta)) [
            | inl e ↦ rw e (search (footprint))
            | inr (meta, e) ↦
                rw e (search (footprint, Follows-give_up, Follows-apply_external, h, m))
          ])
  ]

  Follows-apply_headless :
      (gs' : GameServer) (a : GameAdapter)
      → get_adapter registry gs ≡ some a
      → Reports registry gs gs'.status.phase
      → Makes (Follows registry gs) (apply_headless api registry gs')
  unfolding apply_headless
  Follows-apply_headless gs' a h m =
      let svc = build_headless_service gs' in
      elim (Option-cases (api.set_controller_reference gs'.meta svc.meta)) [
        | inl e ↦ rw (e, apply_headless) (search (footprint))
        | inr (meta, e) ↦
            rw (e, apply_headless)
              (search (footprint, Follows-give_up, Follows-apply_workload, h, m))
      ]

  adapter_missing-Reports :
      (t : Time)
      → get_adapter registry gs ≡ none
      → Reports registry gs (adapter_missing api.quote t gs).status.phase
  unfolding adapter_missing set_phase set_ready
  adapter_missing-Reports t h = fails h

  provision-Reports :
      (a : GameAdapter)
      → get_adapter registry gs ≡ some a
      → Reports registry gs (provision gs).status.phase
  unfolding provision set_phase
  provision-Reports a h = elim (Bool-cases (is_new gs.status.phase)) [
    | inl n ↦ rw n (provisions a h n)
    | inr n ↦ rw n kept
  ]

  Follows-provide : Makes (Follows registry gs) (provide api registry gs)
  unfolding provide
  Follows-provide = elim (Option-cases (get_adapter registry gs)) [
    | inl h ↦
        let missing : (t : Time)
            → Reports registry gs (adapter_missing api.quote t gs).status.phase =
          λ t. adapter_missing-Reports t h in
        rw (h, provide) (search (footprint, missing))
    | inr (a, h) ↦
        rw (h, provide) (Follows-apply_headless (provision gs) a h (provision-Reports a h))
  ]

  Follows-remove_finalizer :
      (gs' : GameServer) → Makes (Follows registry gs) (remove_finalizer api gs')
  unfolding remove_finalizer
  Follows-remove_finalizer gs' = search (footprint)

  Follows-await_scale_down :
      (gs' : GameServer) (sts : StatefulSet)
      → Reports registry gs gs'.status.phase
      → Makes (Follows registry gs) (await_scale_down api gs' sts)
  unfolding await_scale_down
  Follows-await_scale_down gs' sts m = search (footprint, m, Follows-remove_finalizer)

  Follows-scale_down :
      (gs' : GameServer) (sts : StatefulSet)
      → Reports registry gs gs'.status.phase
      → Makes (Follows registry gs) (scale_down api gs' sts)
  unfolding scale_down
  Follows-scale_down gs' sts m = search (footprint, m, Follows-await_scale_down)

  Follows-finalize_server :
      is_some gs.meta.deletion_timestamp ≡ true
      → Makes (Follows registry gs) (finalize_server api gs)
  unfolding finalize_server set_phase
  Follows-finalize_server deleted =
      let stopped : Reports registry gs (set_phase gs stopping).status.phase = stops deleted in
      search (footprint, Follows-scale_down, stopped, Follows-remove_finalizer) depth 9

  Follows-add_finalizer : Makes (Follows registry gs) (add_finalizer api gs)
  unfolding add_finalizer
  Follows-add_finalizer = search (footprint)

  Follows-reconcile_found : Makes (Follows registry gs) (reconcile_found api registry gs)
  unfolding reconcile_found
  Follows-reconcile_found = elim (Bool-cases (is_some gs.meta.deletion_timestamp)) [
    | inl d ↦ rw (d, reconcile_found) (Follows-finalize_server d)
    | inr d ↦
        rw (d, reconcile_found)
          (Makes-if (not (has_finalizer gs)) (add_finalizer api gs) (provide api registry gs)
            Follows-add_finalizer Follows-provide)
  ]

-- Every status that a pass over a GameServer writes has a phase that the machine allows: the one that
-- was read, Provisioning for a new one and Running only with an adapter for its game, Failed only
-- without one, and Stopping only if it is being deleted.
pub reconcile_found-Follows :
    (api : Api) (registry : Registry) (gs : GameServer) (log : Log)
    → Extends (Follows registry gs) log (reconcile_found api registry gs log).1
reconcile_found-Follows api registry gs log = (Follows-reconcile_found api registry gs).at log
