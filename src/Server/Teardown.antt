-- ===== src/Server/Teardown.antt =====
-- What a pass over a GameServer may do, and what it reports.
use gobehost_operator.Prelude.{
  ◌≡◌, refl, ◌∙◌, ◌⊎◌, inl, inr, ◌||◌, ◌∷◌, some, arith, ltb, eqb, Bool-cases,
}
use gobehost_operator.Kube.{key_of, StatefulSet}
use gobehost_operator.Api.{stopping, GameServer}
use gobehost_operator.Cluster.{
  not_found, conflict, other_error, ok, err, Call, Log, Api, Response-cases,
}
use gobehost_operator.Cluster.{count_calls, is_update_server}
use gobehost_operator.Reconciler.{set_phase}
use gobehost_operator.Server.Edits.{asks_replicas}
use gobehost_operator.Server.Control.{await_scale_down, scale_down, finalize_server}

-- The StatefulSets that finalize may have read last: the one it got, and the one that its update
-- returned. Only an object without ready replicas lets it go on.
pub data ScaledDown (api : Api) (gs : GameServer) (log : Log) : Type 0 where
  absent : api.get_stateful_set log (key_of gs.meta) ≡ err not_found → ScaledDown api gs log
  idle :
      (sts : StatefulSet)
      → api.get_stateful_set log (key_of gs.meta) ≡ ok sts
      → sts.ready_replicas ≡ 0
      → ScaledDown api gs log
  scaled :
      (sts stored : StatefulSet)
      → api.get_stateful_set log (key_of gs.meta) ≡ ok sts
      → api.update_stateful_set
          (Call.get_stateful_set (key_of gs.meta) ∷ log)
          (record sts { replicas = some 0 })
        ≡ ok stored
      → stored.ready_replicas ≡ 0
      → ScaledDown api gs log

await_waits :
    (api : Api) (gs : GameServer) (sts : StatefulSet) (log : Log)
    → (count_calls is_update_server (await_scale_down api gs sts log).1
        ≡ count_calls is_update_server log)
      ⊎ (sts.ready_replicas ≡ 0)
unfolding await_scale_down
await_waits api gs sts log = elim (Bool-cases (ltb 0 sts.ready_replicas)) [
  | inl h ↦ inl (rw h (ground arith))
  | inr h ↦ inr (ground arith)
]

scale_waits :
    (api : Api) (gs : GameServer) (sts : StatefulSet) (log : Log)
    → (count_calls is_update_server (scale_down api gs sts log).1
        ≡ count_calls is_update_server log)
      ⊎ ((sts.ready_replicas ≡ 0)
          ⊎ ((stored : StatefulSet) × (api.update_stateful_set log
                  (record sts { replicas = some 0 })
                ≡ ok stored)
              × (stored.ready_replicas ≡ 0)))
unfolding scale_down
scale_waits api gs sts log =
    elim (Bool-cases (eqb sts.status_replicas 0 || asks_replicas sts.replicas)) [
      | inr h ↦ rw h (elim (await_waits api gs sts log) [ inl w ↦ inl w | inr w ↦ inr (inl w) ])
      | inl h ↦
          rw h
            (elim (Response-cases
              (api.update_stateful_set log (record sts { replicas = some 0 }))) [
                | inr (e, u) ↦ inl (rw u (ground arith))
                | inl (stored, u) ↦
                    rw u
                      (elim (await_waits api gs stored
                        (Call.update_stateful_set (record sts { replicas = some 0 }) ∷ log)) [
                          | inl w ↦ inl (w ∙ ground arith)
                          | inr w ↦ inr (inr (stored, refl, w))
                        ])
              ])
    ]

-- A pass over a GameServer that is being deleted removes its finalizer only if its StatefulSet is
-- gone, or was seen in this pass without a ready replica.
pub finalize_server_waits :
    (api : Api) (gs : GameServer) (log : Log)
    → (count_calls is_update_server (finalize_server api gs log).1
        ≡ count_calls is_update_server log)
      ⊎ ScaledDown api gs log
unfolding finalize_server set_phase
finalize_server_waits api gs log =
    elim (Response-cases (api.get_stateful_set log (key_of gs.meta))) [
      | inr (not_found, h) ↦ inr (absent h)
      | inr (conflict, h) ↦ inl (rw h (ground arith))
      | inr (other_error, h) ↦ inl (rw h (ground arith))
      | inl (sts, h) ↦
          rw h
            (elim (scale_waits api (set_phase gs stopping) sts
              (Call.get_stateful_set (key_of gs.meta) ∷ log)) [
                | inl w ↦ inl (w ∙ ground arith)
                | inr (inl w) ↦ inr (idle sts h w)
                | inr (inr (stored, u, w)) ↦ inr (scaled sts stored h u w)
              ])
    ]
