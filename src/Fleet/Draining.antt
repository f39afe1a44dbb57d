-- ===== src/Fleet/Draining.antt =====
-- The deletion of a fleet comes to its end: two passes suffice where the API server does what it is
-- asked.
use gobehost_operator.Prelude.{
  ◌≡◌, refl, sym, ap, ◌∙◌, ◌⊎◌, inl, inr, true, false, String, List, [], ◌∷◌, arith, ◌==◌, eq_refl,
  if◌then◌else◌, contains, contains-delete, Bool-cases, All,
}
use gobehost_operator.Kube.{key_of, Service}
use gobehost_operator.Api.{
  GameServer, GameServerFleet, game_server_finalizer, game_server_fleet_finalizer, fleet_name_label,
}
use gobehost_operator.Cluster.{
  ok, Response-cases, Call, Log, Api, M, is_some, Outcome, done, no_requeue, requeue_after,
  count_calls, is_update_fleet, deleted_names,
}
use gobehost_operator.Fleet.Lifecycle.{
  without_fleet_finalizer, list_owned, release_fleet, release_if_empty, LoopEnd, still_exists,
  without_server_finalizer, delete_then, remove_server, remove_servers, drop_service, finish_loop,
  finalize,
}
use gobehost_operator.Fleet.Deletion.{
  live_names, reverse_onto, KeepsNames, listed, remove_servers-deleted_names,
}

-- The GameServers whose names are not among those deleted.
unfoldable pub remaining : List String → List GameServer → List GameServer
unfolding contains
remaining gone [] = []
remaining gone (gs ∷ items) =
    let rest = remaining gone items in if contains gone gs.meta.name then rest else gs ∷ rest

-- Every change that a deletion makes succeeds.
pub record Obeys (api : Api) : Type 0 where
  pub updates :
      (log : Log) (gs : GameServer) → (gs' : GameServer) × (api.update_server log gs ≡ ok gs')
  pub deletes : (log : Log) (gs : GameServer) → api.delete_server log gs ≡ ok tt
  pub drops : (log : Log) (svc : Service) → api.delete_service log svc ≡ ok tt
  pub releases :
      (log : Log) (fleet : GameServerFleet)
      → (fleet' : GameServerFleet) × (api.update_fleet log fleet ≡ ok fleet')

reverse_onto-kept :
    (xs ys : List String) (x : String)
    → contains ys x ≡ true
    → contains (reverse_onto xs ys) x ≡ true
unfolding contains
reverse_onto-kept [] ys x h = h
reverse_onto-kept (z ∷ xs) ys x h = reverse_onto-kept xs (z ∷ ys) x (ground (arith, h))

reverse_onto-moved :
    (xs ys : List String) (x : String)
    → contains xs x ≡ true
    → contains (reverse_onto xs ys) x ≡ true
unfolding contains
reverse_onto-moved [] ys x h = absurd (ground (arith, h))
reverse_onto-moved (z ∷ xs) ys x h = elim (Bool-cases (z == x)) [
  | inl e ↦ reverse_onto-kept xs (z ∷ ys) x (rw e refl)
  | inr e ↦ reverse_onto-moved xs (z ∷ ys) x (ground (arith, e, h))
]

-- A list of names that has those deleted before and those listed since leaves nothing.
remaining_none :
    (present : List GameServer) (gone after : List String)
    → All (λ gs. is_some gs.meta.deletion_timestamp ≡ false) present
    → ((x : String) → contains gone x ≡ true → contains after x ≡ true)
    → ((x : String)
        → contains (live_names (remaining gone present)) x ≡ true
        → contains after x ≡ true)
    → remaining after present ≡ []
unfolding remaining
remaining_none [] gone after live h k = refl
remaining_none (gs ∷ present) gone after (l, live) h k =
    elim (Bool-cases (contains gone gs.meta.name)) [
      | inl e ↦
          rw (h gs.meta.name e) (remaining_none present gone after live h (λ x m. k x (rw e m)))
      | inr e ↦
          let here : contains after gs.meta.name ≡ true =
            k gs.meta.name (rw (e, l, eq_refl) refl) in
          rw here
            (remaining_none present gone after live h (λ x m. k x (rw (e, l) (ground (arith, m)))))
    ]

-- One step of the loop goes on.
remove_server-passes :
    (api : Api) (gs : GameServer) (rest : M LoopEnd) (log : Log)
    → Obeys api
    → (log' : Log) × (remove_server api gs rest log ≡ rest log')
unfolding remove_server delete_then
remove_server-passes api gs rest log ob =
    elim (Bool-cases (contains gs.meta.finalizers game_server_finalizer)) [
      | inr h ↦ (Call.delete_server gs ∷ log, rw (h, ob.deletes) refl)
      | inl h ↦
          let gs0 = without_server_finalizer gs in
          let (gs', u) = ob.updates log gs0 in
          (Call.delete_server gs' ∷ Call.update_server gs0 ∷ log, rw (h, u, ob.deletes) refl)
    ]

remove_servers-ends :
    (api : Api) (items : List GameServer) (log : Log)
    → Obeys api
    → (remove_servers api true items log).0 ≡ still_exists true
unfolding remove_servers
remove_servers-ends api [] log ob = refl
remove_servers-ends api (gs ∷ items) log ob =
    elim (Bool-cases (is_some gs.meta.deletion_timestamp)) [
      | inl h ↦ rw h (remove_servers-ends api items log ob)
      | inr h ↦
          let (log', e) = remove_server-passes api gs (remove_servers api true items) log ob in
          rw (h, e) (remove_servers-ends api items log' ob)
    ]

-- From the first GameServer on.
remove_servers-found :
    (api : Api) (gs : GameServer) (items : List GameServer) (log : Log)
    → Obeys api
    → (remove_servers api false (gs ∷ items) log).0 ≡ still_exists true
unfolding remove_servers
remove_servers-found api gs items log ob = remove_servers-ends api (gs ∷ items) log ob

-- The pass ends the deletion: its last call, and its one update of the fleet, is that which keeps the
-- fleet but for the finalizer.
pub record Releases (fleet : GameServerFleet) (log : Log) (r : Outcome × Log) : Type 0 where
  pub ends : r.0 ≡ done no_requeue
  pub sent : GameServerFleet
  pub earlier : Log
  pub last : r.1 ≡ Call.update_fleet sent ∷ earlier
  pub once : count_calls is_update_fleet earlier ≡ count_calls is_update_fleet log
  pub freed : contains sent.meta.finalizers game_server_fleet_finalizer ≡ false
  pub same_key : key_of sent.meta ≡ key_of fleet.meta
  pub same_spec : sent.spec ≡ fleet.spec

release_fleet-Releases :
    (api : Api) (fleet : GameServerFleet) (log : Log)
    → Obeys api
    → Releases fleet log (release_fleet api fleet log)
unfolding release_fleet
release_fleet-Releases api fleet log ob =
    rw ((ob.releases log (without_fleet_finalizer fleet)).1) (record {
      ends = refl;
      sent = without_fleet_finalizer fleet;
      earlier = log;
      last = refl;
      once = refl;
      freed = contains-delete fleet.meta.finalizers game_server_fleet_finalizer;
      same_key = refl;
      same_spec = refl;
    })

-- A call that is not an update of the fleet comes before.
Releases-after :
    (fleet : GameServerFleet) (c : Call) (log : Log) (r : Outcome × Log)
    → is_update_fleet c ≡ 0
    → Releases fleet (c ∷ log) r
    → Releases fleet log r
Releases-after fleet c log r h released = record {
  ends = released.ends;
  sent = released.sent;
  earlier = released.earlier;
  last = released.last;
  once = released.once ∙ omega (arith, h);
  freed = released.freed;
  same_key = released.same_key;
  same_spec = released.same_spec;
}

drop_service-Releases :
    (api : Api) (fleet : GameServerFleet) (log : Log)
    → Obeys api
    → Releases fleet log (drop_service api fleet [] log)
unfolding drop_service release_if_empty
drop_service-Releases api fleet log ob =
    let asked = Call.get_service (key_of fleet.meta) in
    let at_once : Releases fleet log (release_fleet api fleet (asked ∷ log)) =
      Releases-after fleet asked log _ refl (release_fleet-Releases api fleet (asked ∷ log) ob) in
    elim (Response-cases (api.get_service log (key_of fleet.meta))) [
      | inr (e, h) ↦ rw h at_once
      | inl (svc, h) ↦ elim (Bool-cases (is_some svc.meta.deletion_timestamp)) [
        | inl d ↦ rw (h, d) at_once
        | inr d ↦
            let dropped = Call.delete_service svc in
            rw (h, d, ob.drops)
              (Releases-after fleet asked log _ refl (
                Releases-after fleet dropped (asked ∷ log) _ refl
                  (release_fleet-Releases api fleet (dropped ∷ asked ∷ log) ob)))
      ]
    ]

-- A pass over an empty list.
finalize_empty :
    (api : Api) (fleet : GameServerFleet) (log : Log)
    → Obeys api
    → listed api fleet log ≡ ok []
    → Releases fleet log (finalize api fleet log)
unfolding finalize list_owned remove_servers finish_loop
finalize_empty api fleet log ob h =
    let asked = Call.list_servers fleet.meta.namespace ((fleet_name_label, fleet.meta.name) ∷ []) in
    rw h (Releases-after fleet asked log _ refl (drop_service-Releases api fleet (asked ∷ log) ob))

finalize_found :
    (api : Api) (fleet : GameServerFleet) (gs : GameServer) (items : List GameServer) (log : Log)
    → Obeys api
    → KeepsNames api
    → listed api fleet log ≡ ok (gs ∷ items)
    → ((finalize api fleet log).0 ≡ done (requeue_after 2))
      × (deleted_names (finalize api fleet log).1
          ≡ reverse_onto (live_names (gs ∷ items)) (deleted_names log))
unfolding finalize list_owned finish_loop
finalize_found api fleet gs items log ob keeps h =
    let log1 : Log =
      Call.list_servers fleet.meta.namespace ((fleet_name_label, fleet.meta.name) ∷ []) ∷ log in
    let found = remove_servers-found api gs items log1 ob in
    rw (h, found) (refl, remove_servers-deleted_names api false (gs ∷ items) log1 true keeps found)

-- Where updates and deletions succeed, updates keep the name, none of the GameServers is being
-- deleted by someone else and a listing shows those whose names were not deleted, a pass over a
-- fleet that is being deleted ends with its one update of the fleet, which lacks the finalizer and
-- has the same key and spec, or asks for another pass in two seconds and that one does.
pub finalize_twice :
    (api : Api) (fleet : GameServerFleet) (present : List GameServer) (log : Log)
    → Obeys api
    → KeepsNames api
    → All (λ gs. is_some gs.meta.deletion_timestamp ≡ false) present
    → ((log : Log) → listed api fleet log ≡ ok (remaining (deleted_names log) present))
    → let after = (finalize api fleet log).1 in
      Releases fleet log (finalize api fleet log)
      ⊎ (((finalize api fleet log).0 ≡ done (requeue_after 2))
          × Releases fleet after (finalize api fleet after))
finalize_twice api fleet present log ob keeps live lists =
    pass (remaining (deleted_names log) present) refl
  where
    after : Log
    after = (finalize api fleet log).1

    emptied :
        (items : List GameServer)
        → remaining (deleted_names log) present ≡ items
        → deleted_names after ≡ reverse_onto (live_names items) (deleted_names log)
        → listed api fleet after ≡ ok []
    emptied items e d =
        lists after
        ∙ ap ok (
            remaining_none present (deleted_names log) (deleted_names after) live
              (λ x m. rw d (reverse_onto-kept (live_names items) (deleted_names log) x m))
              (λ x m.
                rw d (reverse_onto-moved (live_names items) (deleted_names log) x (rw (sym e) m))))

    pass :
        (items : List GameServer)
        → remaining (deleted_names log) present ≡ items
        → Releases fleet log (finalize api fleet log)
          ⊎ (((finalize api fleet log).0 ≡ done (requeue_after 2))
              × Releases fleet after (finalize api fleet after))
    pass [] e = inl (finalize_empty api fleet log ob (lists log ∙ ap ok e))
    pass (gs ∷ items) e =
        let (o, d) = finalize_found api fleet gs items log ob keeps (lists log ∙ ap ok e) in
        inr (o, finalize_empty api fleet after ob (emptied (gs ∷ items) e d))
