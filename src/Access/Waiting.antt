-- ===== src/Access/Waiting.antt =====
-- How long a pass of the fleet controller waits.
use gobehost_operator.Prelude.{
  ℕ, zero, suc, ◌+◌, ◌-◌, ◌*◌, ◌≤◌, ◌≡◌, inl, inr, String, List, ◌∷◌, Option, none, some, arith,
  Option-cases,
}
use gobehost_operator.Prelude.Int.{ℤ, pos, negsuc}
use gobehost_operator.Api.{GameServer, GracefulShutdownSpec, GameServerFleet}
use gobehost_operator.Cluster.{Call, Log, Api, count_calls, Response-cases}
use gobehost_operator.Cluster.Footprint.{Makes-pure, footprint}
use gobehost_operator.Fleet.{
  countdown_of, countdown_message, first_message, find_current, countdown_loop, countdown,
  send_graceful_shutdown, start_spec_update, steady, handle_steady_state, active, reconcile_fleet,
}
use gobehost_operator.Access.FleetQuiet.{
  Makes-handle_failed, Makes-settle, Makes-finalize, Makes-list_owned, Makes-without_current,
}
use gobehost_operator.Access.Waits.{waited, quiet, Waits, Waits-none, Waits-first, waiting}

-- The most that a warning of n seconds waits: a command for each second, and the seconds between.
abbrev pub warning_time : ℕ → ℕ → ℕ
warning_time limit n = n * (limit + 1)

module _ (limit : ℕ) (api : Api) where
  countdown_loop_waits :
      (host : String) (port : ℤ) (password : String) (timeout : ℤ) (i : ℕ) (log : Log)
      → count_calls (waited limit) (countdown_loop api host port password timeout i log).1
        ≤ warning_time limit i + count_calls (waited limit) log
  unfolding countdown_loop
  countdown_loop_waits host port password timeout zero log = omega arith
  countdown_loop_waits host port password timeout (suc i) log =
      let message = countdown_message (suc i) in
      let log2 : Log = Call.send_command host port password message timeout ∷ Call.sleep 1 ∷ log in
      elim (Response-cases
        (api.send_command (Call.sleep 1 ∷ log) host port password message timeout)) [
          | inl (reply, h) ↦
              rw h (grind (arith, countdown_loop_waits host port password timeout i log2))
          | inr (e, h) ↦ rw h (grind arith)
        ]

  countdown-Waits :
      (host : String) (port : ℤ) (password : String) (timeout : ℤ) (n : ℕ)
      → Waits limit (warning_time limit (suc n)) (countdown api host port password timeout (suc n))
  unfolding countdown
  countdown-Waits host port password timeout n = record {
    at = λ log.
        let sent : Log =
          Call.send_command host port password (first_message (suc n)) timeout ∷ log in
        let e : suc n - 1 ≡ n = omega arith in
        elim (Response-cases
          (api.send_command log host port password (first_message (suc n)) timeout)) [
            | inl (reply, h) ↦
                rw (h, e) (grind (arith, countdown_loop_waits host port password timeout n sent))
            | inr (c, h) ↦ rw h (grind arith)
          ];
  }

  -- the most that the fleet's warning waits
  abbrev pub fleet_wait : Option GracefulShutdownSpec → ℕ
  fleet_wait none = 0
  fleet_wait (some config) = warning_time limit (countdown_of config.countdown_seconds)

  countdown_of-Waits :
      (seconds : ℤ) (host : String) (port : ℤ) (password : String) (timeout : ℤ)
      → Waits limit
          (warning_time limit (countdown_of seconds))
          (countdown api host port password timeout (countdown_of seconds))
  countdown_of-Waits (pos zero) host port password timeout =
      countdown-Waits host port password timeout 4
  countdown_of-Waits (pos (suc n)) host port password timeout =
      countdown-Waits host port password timeout n
  countdown_of-Waits (negsuc n) host port password timeout =
      countdown-Waits host port password timeout 4

  send_graceful_shutdown-Waits :
      (config : Option GracefulShutdownSpec) (gs : GameServer)
      → Waits limit (fleet_wait config) (send_graceful_shutdown api config gs)
  unfolding send_graceful_shutdown
  send_graceful_shutdown-Waits none gs = Waits-none (Makes-pure tt)
  send_graceful_shutdown-Waits (some config) gs = search (waiting, countdown_of-Waits)

  start_spec_update-Waits :
      (fleet : GameServerFleet) (gs : GameServer) (hash : String)
      → Waits limit (fleet_wait fleet.spec.graceful_shutdown) (start_spec_update api fleet gs hash)
  unfolding start_spec_update
  start_spec_update-Waits fleet gs hash =
      search (Waits-first, send_graceful_shutdown-Waits, footprint) depth 9

  steady-Waits :
      (fleet : GameServerFleet) (gs : GameServer)
      → Waits limit (fleet_wait fleet.spec.graceful_shutdown) (steady api fleet gs)
  unfolding steady
  steady-Waits fleet gs =
      search
        (
          waiting,
          start_spec_update-Waits,
          Makes-handle_failed (quiet limit) api,
          Makes-settle (quiet limit) api,
        )
        depth 9

  handle_steady_state-Waits :
      (fleet : GameServerFleet) (items : List GameServer)
      → Waits limit (fleet_wait fleet.spec.graceful_shutdown) (handle_steady_state api fleet items)
  unfolding handle_steady_state
  handle_steady_state-Waits fleet items = elim (Option-cases (find_current fleet items)) [
    | inr (gs, h) ↦ rw (h, handle_steady_state) (steady-Waits fleet gs)
    | inl h ↦
        rw (h, handle_steady_state)
          (Waits-none (Makes-without_current (quiet limit) api fleet items))
  ]

  active-Waits :
      (fleet : GameServerFleet)
      → Waits limit (fleet_wait fleet.spec.graceful_shutdown) (active api fleet)
  unfolding active
  active-Waits fleet =
      search (waiting, Makes-list_owned (quiet limit) api, handle_steady_state-Waits)

  -- With commands that take `limit` seconds at most, a pass over a fleet waits no longer than
  -- `limit + 1` seconds for each second of its countdown, and not at all without a warning
  -- configured.
  pub reconcile_fleet_waits :
      (fleet : GameServerFleet) (log : Log)
      → count_calls (waited limit) (reconcile_fleet api fleet log).1
        ≤ fleet_wait fleet.spec.graceful_shutdown + count_calls (waited limit) log
  unfolding reconcile_fleet
  reconcile_fleet_waits fleet log =
      let all : Waits limit (fleet_wait fleet.spec.graceful_shutdown) (reconcile_fleet api fleet) =
        search (waiting, Makes-finalize (quiet limit) api, active-Waits) depth 9 in
      all.at log
