-- ===== src/Server/Release.antt =====
-- The deletion of a GameServer goes on where the API server does what it is asked.
use gobehost_operator.Prelude.{
  ℕ, ◌≡◌, refl, ◌<◌, ◌||◌, ◌⊎◌, inl, inr, true, false, ◌∷◌, some, contains-delete, arith, ltb, eqb,
  Bool-cases,
}
use mathlib.Core.Path.{subst}
use gobehost_operator.Kube.{key_of, StatefulSet}
use gobehost_operator.Api.{stopping, game_server_finalizer, GameServer}
use gobehost_operator.Cluster.{
  not_found, ok, err, Call, Log, Api, Outcome, done, no_requeue, requeue_after, Response,
}
use gobehost_operator.Reconciler.{set_phase}
use gobehost_operator.Server.Edits.{asks_replicas, has_finalizer, drop_server_finalizer}
use gobehost_operator.Server.Control.{
  remove_finalizer, await_scale_down, scale_down, finalize_server,
}

-- Updates succeed, and that of a StatefulSet leaves its status.
pub record Obeys (api : Api) : Type 0 where
  pub updates :
      (log : Log) (gs : GameServer) → (gs' : GameServer) × (api.update_server log gs ≡ ok gs')
  pub scales :
      (log : Log) (sts : StatefulSet)
      → (sts' : StatefulSet) × (api.update_stateful_set log sts ≡ ok sts')
        × (sts'.ready_replicas ≡ sts.ready_replicas)

-- The end of a pass that lets the GameServer go, and of one that comes back in five seconds for a
-- StatefulSet with ready replicas.
pub data Ends (gs : GameServer) (ready : ℕ) (r : Outcome × Log) : Type 0 where
  released :
      ready ≡ 0
      → r.0 ≡ done no_requeue
      → (earlier : Log) → r.1 ≡ Call.update_server (drop_server_finalizer gs) ∷ earlier
      → has_finalizer (drop_server_finalizer gs) ≡ false
      → Ends gs ready r
  waiting : 0 < ready → r.0 ≡ done (requeue_after 5) → Ends gs ready r

dropped : (gs : GameServer) → has_finalizer (drop_server_finalizer gs) ≡ false
unfolding has_finalizer
dropped gs = contains-delete gs.meta.finalizers game_server_finalizer

module _ (api : Api) (gs : GameServer) (ob : Obeys api) (held : has_finalizer gs ≡ true) where
  remove_finalizer-Ends : (log : Log) → Ends gs 0 (remove_finalizer api gs log)
  unfolding remove_finalizer
  remove_finalizer-Ends log =
      let (gs', u) = ob.updates log (drop_server_finalizer gs) in
      rw (held, u) (released refl refl log refl (dropped gs))

  await_scale_down-Ends :
      (sts : StatefulSet) (log : Log) → Ends gs sts.ready_replicas (await_scale_down api gs sts log)
  unfolding await_scale_down
  await_scale_down-Ends sts log = elim (Bool-cases (ltb 0 sts.ready_replicas)) [
    | inl h ↦ rw h (waiting (ground arith) refl)
    | inr h ↦
        let none_ready : sts.ready_replicas ≡ 0 = ground arith in
        rw (h, none_ready) (remove_finalizer-Ends log)
  ]

  scale_down-Ends :
      (sts : StatefulSet) (log : Log) → Ends gs sts.ready_replicas (scale_down api gs sts log)
  unfolding scale_down
  scale_down-Ends sts log =
      elim (Bool-cases (eqb sts.status_replicas 0 || asks_replicas sts.replicas)) [
        | inr h ↦ rw h (await_scale_down-Ends sts log)
        | inl h ↦
            let (sts', u, same) = ob.scales log (record sts { replicas = some 0 }) in
            rw (h, u)
              (subst
                (λ n. Ends gs n (
                  await_scale_down api gs sts'
                    (Call.update_stateful_set (record sts { replicas = some 0 }) ∷ log)))
                same (await_scale_down-Ends sts' _))
      ]

-- The ready replicas of the StatefulSet that was read, if there is one.
abbrev pub ready_now : Response StatefulSet → ℕ
ready_now (ok sts) = sts.ready_replicas
ready_now (err e) = 0

-- If updates succeed and that of a StatefulSet leaves its status, and the StatefulSet can be read or
-- is not found, a pass over a GameServer that is being deleted and holds the finalizer ends with the
-- update that removes it where no replica is ready, and otherwise comes back in five seconds.
pub finalize_server-Ends :
    (api : Api) (gs : GameServer) (log : Log)
    → Obeys api
    → has_finalizer gs ≡ true
    → (api.get_stateful_set log (key_of gs.meta) ≡ err not_found)
      ⊎ ((sts : StatefulSet) × (api.get_stateful_set log (key_of gs.meta) ≡ ok sts))
    → Ends
        (set_phase gs stopping)
        (ready_now (api.get_stateful_set log (key_of gs.meta)))
        (finalize_server api gs log)
unfolding finalize_server set_phase has_finalizer
finalize_server-Ends api gs log ob held (inl absent) = rw absent (
    remove_finalizer-Ends api (set_phase gs stopping) ob held
      (Call.get_stateful_set (key_of gs.meta) ∷ log))
finalize_server-Ends api gs log ob held (inr (sts, found)) = rw found (
    scale_down-Ends api (set_phase gs stopping) ob held sts
      (Call.get_stateful_set (key_of gs.meta) ∷ log))
