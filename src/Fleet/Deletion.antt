-- ===== src/Fleet/Deletion.antt =====
-- The deletion of a fleet: its GameServers go first, and its finalizer last.
use gobehost_operator.Prelude.{
  ◌+◌, ◌≡◌, refl, ap, ◌∙◌, ◌≢◌, ◌⊎◌, inl, inr, Bool, true, false, String, List, [], ◌∷◌, arith,
  if◌then◌else◌, contains, Bool-cases,
}
use gobehost_operator.Api.{game_server_finalizer, GameServer, fleet_name_label, GameServerFleet}
use gobehost_operator.Cluster.{
  not_found, conflict, other_error, Response, ok, Call, Log, Api, Response-cases, M, ◌>>=◌, Outcome,
  is_some, is_error,
}
use gobehost_operator.Cluster.{count_calls, is_update_fleet, deleted_names}
use gobehost_operator.Fleet.Lifecycle.{
  LoopEnd, stop, still_exists, without_server_finalizer, delete_then, remove_server, remove_servers,
  drop_service, finish_loop, finalize,
}

-- The names of the GameServers that are not being deleted, in the order of the list.
abbrev pub live_names : List GameServer → List String
live_names [] = []
live_names (gs ∷ items) =
    if is_some gs.meta.deletion_timestamp then live_names items else gs.meta.name ∷ live_names items

abbrev pub reverse_onto : List String → List String → List String
reverse_onto [] ys = ys
reverse_onto (x ∷ xs) ys = reverse_onto xs (x ∷ ys)

-- The server never renames the object that it updates.
abbrev pub KeepsNames : Api → Type 0
KeepsNames api =
    (log : Log) (gs gs' : GameServer)
    → api.update_server log gs ≡ ok gs'
    → gs'.meta.name ≡ gs.meta.name

-- The logs after which the loop goes on past `gs`: it was deleted, as it was or as the server
-- stored it without its finalizer.
data Removed (api : Api) (gs : GameServer) (log log' : Log) : Type 0 where
  direct : log' ≡ Call.delete_server gs ∷ log → Removed api gs log log'
  updated :
      (gs' : GameServer)
      → api.update_server log (without_server_finalizer gs) ≡ ok gs'
      → log' ≡ Call.delete_server gs' ∷ Call.update_server (without_server_finalizer gs) ∷ log
      → Removed api gs log log'

-- The logs at which the loop stops early.
data Stopped (gs : GameServer) (log log' : Log) : Type 0 where
  at_delete : log' ≡ Call.delete_server gs ∷ log → Stopped gs log log'
  at_update : log' ≡ Call.update_server (without_server_finalizer gs) ∷ log → Stopped gs log log'
  after_update :
      (gs' : GameServer)
      → log' ≡ Call.delete_server gs' ∷ Call.update_server (without_server_finalizer gs) ∷ log
      → Stopped gs log log'

delete_then_rule :
    (P : LoopEnd × Log → Type 0) (api : Api) (gs : GameServer) (rest : M LoopEnd) (log : Log)
    → P (rest (Call.delete_server gs ∷ log))
    → ((o : Outcome) → P (stop o, Call.delete_server gs ∷ log))
    → P (delete_then api gs rest log)
unfolding delete_then
delete_then_rule P api gs rest log keep early = elim (Response-cases (api.delete_server log gs)) [
  | inl (_, e) ↦ rw e keep
  | inr (not_found, e) ↦ rw e keep
  | inr (conflict, e) ↦ rw e (early _)
  | inr (other_error, e) ↦ rw e (early _)
]

remove_server_rule :
    (P : LoopEnd × Log → Type 0) (api : Api) (gs : GameServer) (rest : M LoopEnd) (log : Log)
    → ((log' : Log) → Removed api gs log log' → P (rest log'))
    → ((o : Outcome) (log' : Log) → Stopped gs log log' → P (stop o, log'))
    → P (remove_server api gs rest log)
unfolding remove_server
remove_server_rule P api gs rest log keep early =
    elim (Bool-cases (contains gs.meta.finalizers game_server_finalizer)) [
      | inr h ↦ rw h (
          delete_then_rule P api gs rest log (keep _ (direct refl))
            (λ o. early o _ (at_delete refl)))
      | inl h ↦ rw h (elim (Response-cases (api.update_server log (without_server_finalizer gs))) [
        | inr (x, e) ↦ rw e (early _ _ (at_update refl))
        | inl (gs', e) ↦ rw e (
            delete_then_rule P api gs' rest _ (keep _ (updated gs' e refl))
              (λ o. early o _ (after_update gs' refl)))
      ])
    ]

Removed-none :
    {api : Api} {gs : GameServer} {log log' : Log}
    → Removed api gs log log'
    → count_calls is_update_fleet log' ≡ count_calls is_update_fleet log
Removed-none (direct e) = rw e (ground arith)
Removed-none (updated gs' u e) = rw e (ground arith)

Stopped-none :
    {gs : GameServer} {log log' : Log}
    → Stopped gs log log'
    → count_calls is_update_fleet log' ≡ count_calls is_update_fleet log
Stopped-none (at_delete e) = rw e (ground arith)
Stopped-none (at_update e) = rw e (ground arith)
Stopped-none (after_update gs' e) = rw e (ground arith)

-- The loop removes no fleet finalizer.
remove_servers-update_fleet :
    (api : Api) (still : Bool) (items : List GameServer) (log : Log)
    → count_calls is_update_fleet (remove_servers api still items log).1
      ≡ count_calls is_update_fleet log
unfolding remove_servers
remove_servers-update_fleet api still [] log = refl
remove_servers-update_fleet api still (gs ∷ items) log =
    elim (Bool-cases (is_some gs.meta.deletion_timestamp)) [
      | inl h ↦ rw h (remove_servers-update_fleet api true items log)
      | inr h ↦ rw h (
          remove_server_rule
            (λ r. count_calls is_update_fleet r.1 ≡ count_calls is_update_fleet log) api gs
            (remove_servers api true items) log
            (λ log' r. remove_servers-update_fleet api true items log' ∙ Removed-none r)
            (λ o log' r. Stopped-none r))
    ]

-- A loop over at least one GameServer never finds that none is left.
remove_servers_exists :
    (api : Api) (items : List GameServer) (log : Log)
    → (remove_servers api true items log).0 ≢ still_exists false
unfolding remove_servers
remove_servers_exists api [] log = λ e. cc
remove_servers_exists api (gs ∷ items) log =
    elim (Bool-cases (is_some gs.meta.deletion_timestamp)) [
      | inl h ↦ rw h (remove_servers_exists api items log)
      | inr h ↦ rw h (
          remove_server_rule (λ r. r.0 ≢ still_exists false) api gs (remove_servers api true items)
            log (λ log' r. remove_servers_exists api items log') (λ o log' r e. cc))
    ]

Removed-names :
    {api : Api} {gs : GameServer} {log log' : Log}
    → KeepsNames api
    → Removed api gs log log'
    → deleted_names log' ≡ gs.meta.name ∷ deleted_names log
Removed-names keeps (direct e) = rw e refl
Removed-names {gs = gs} {log = log} keeps (updated gs' u e) =
    rw e
      (ap (λ (s : String). s ∷ deleted_names log) (keeps log (without_server_finalizer gs) gs' u))

-- The claim about one loop, to be shown of each of its steps.
abbrev Deletes : Bool → List String → LoopEnd × Log → Type 0
Deletes b names r = r.0 ≡ still_exists b → deleted_names r.1 ≡ names

remove_servers-Deletes :
    (api : Api) (still : Bool) (items : List GameServer) (log : Log) (b : Bool)
    → KeepsNames api
    → Deletes b
        (reverse_onto (live_names items) (deleted_names log))
        (remove_servers api still items log)
unfolding remove_servers
remove_servers-Deletes api still [] log b keeps = λ e. refl
remove_servers-Deletes api still (gs ∷ items) log b keeps =
    elim (Bool-cases (is_some gs.meta.deletion_timestamp)) [
      | inl h ↦ rw h (remove_servers-Deletes api true items log b keeps)
      | inr h ↦ rw h (
          remove_server_rule
            (Deletes b (reverse_onto (gs.meta.name ∷ live_names items) (deleted_names log))) api gs
            (remove_servers api true items) log
            (λ log' r e.
              remove_servers-Deletes api true items log' b keeps e
              ∙ ap (reverse_onto (live_names items)) (Removed-names keeps r))
            (λ o log' r e. absurd (cc)))
    ]

-- If the server renames nothing that it updates, a loop that runs to its end has deleted exactly the
-- GameServers that were not being deleted, each once, in the order of the list.
pub remove_servers-deleted_names :
    (api : Api) (still : Bool) (items : List GameServer) (log : Log) (b : Bool)
    → KeepsNames api
    → (remove_servers api still items log).0 ≡ still_exists b
    → deleted_names (remove_servers api still items log).1
      ≡ reverse_onto (live_names items) (deleted_names log)
remove_servers-deleted_names api still items log b keeps =
    remove_servers-Deletes api still items log b keeps

abbrev pub listed : Api → GameServerFleet → Log → Response (List GameServer)
listed api fleet log =
    api.list_servers log fleet.meta.namespace ((fleet_name_label, fleet.meta.name) ∷ [])

-- The loop that starts with `stillExists := false`.
remove_servers_found :
    (api : Api) (gs : GameServer) (items : List GameServer) (log : Log)
    → (remove_servers api false (gs ∷ items) log).0 ≢ still_exists false
unfolding remove_servers
remove_servers_found api gs items log = remove_servers_exists api (gs ∷ items) log

finish_loop-update_fleet :
    (api : Api) (fleet : GameServerFleet) (items : List GameServer) (end : LoopEnd) (log : Log)
    → end ≢ still_exists false
    → count_calls is_update_fleet (finish_loop api fleet items end log).1
      ≡ count_calls is_update_fleet log
unfolding finish_loop
finish_loop-update_fleet api fleet items (stop o) log h = refl
finish_loop-update_fleet api fleet items (still_exists true) log h = refl
finish_loop-update_fleet api fleet items (still_exists false) log h = absurd (h refl)

-- What finalize does with a list that was read.
after_list :
    (api : Api) (fleet : GameServerFleet) (gs : GameServer) (items : List GameServer) (log : Log)
    → count_calls is_update_fleet
        ((remove_servers api false (gs ∷ items) >>= finish_loop api fleet (gs ∷ items)) log).1
      ≡ count_calls is_update_fleet log
after_list api fleet gs items log =
    let r = remove_servers api false (gs ∷ items) log in
    finish_loop-update_fleet api fleet (gs ∷ items) r.0 r.1 (remove_servers_found api gs items log)
    ∙ remove_servers-update_fleet api false (gs ∷ items) log

-- The fleet's finalizer is removed in a pass only if the list of its GameServers, read in that
-- pass, was empty.
pub finalize_waits :
    (api : Api) (fleet : GameServerFleet) (log : Log)
    → (count_calls is_update_fleet (finalize api fleet log).1 ≡ count_calls is_update_fleet log)
      ⊎ (listed api fleet log ≡ ok [])
unfolding finalize
finalize_waits api fleet log = elim (Response-cases (listed api fleet log)) [
  | inr (e, h) ↦ inl (rw h (ground arith))
  | inl ([], h) ↦ inr h
  | inl (gs ∷ items, h) ↦ inl (rw h (after_list api fleet gs items _ ∙ ground arith))
]

-- With no GameServer left, a pass sends the one update that removes the finalizer, or ends in an
-- error.
pub finalize_releases :
    (api : Api) (fleet : GameServerFleet) (log : Log)
    → listed api fleet log ≡ ok []
    → (count_calls is_update_fleet (finalize api fleet log).1 ≡ count_calls is_update_fleet log + 1)
      ⊎ (is_error (finalize api fleet log).0 ≡ true)
unfolding finalize remove_servers finish_loop drop_service
finalize_releases api fleet log h = rw h (grind arith)
