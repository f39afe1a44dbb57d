-- ===== src/Fleet/Footprint.antt =====
-- The calls of the warning and of the fleet's Service, whatever is asked of them.
use gobehost_operator.Prelude.{ℕ, zero, suc, String, Option, none, some, inl, inr, Option-cases}
use gobehost_operator.Prelude.Int.{ℤ}
use gobehost_operator.Kube.{Service}
use gobehost_operator.Api.{GameServer, GracefulShutdownSpec, GameServerFleet}
use gobehost_operator.Cluster.{ok, err, Call, Api, ◌>>=◌, pure, sleep, send_command}
use gobehost_operator.Cluster.Footprint.{Makes, Makes-pure, Makes-bind, footprint}
use gobehost_operator.Reconciler.{build_fleet_service}
use gobehost_operator.Fleet.Statuses.{countdown_message}
use gobehost_operator.Fleet.Rollout.{
  countdown_loop, countdown, send_graceful_shutdown, ensure_fleet_service,
}

module _ {P : Call → Type 0} (sleeps : (n : ℕ) → P (Call.sleep n))
    (sends : (host : String) (port : ℤ) (password command : String) (timeout : ℤ)
      → P (Call.send_command host port password command timeout))
    (api : Api) where
  Makes-countdown_loop :
      (host : String) (port : ℤ) (password : String) (timeout : ℤ) (i : ℕ)
      → Makes P (countdown_loop api host port password timeout i)
  unfolding countdown_loop
  Makes-countdown_loop host port password timeout zero = Makes-pure tt
  Makes-countdown_loop host port password timeout (suc i) =
      let more = Makes-countdown_loop host port password timeout i in
      Makes-bind (sleep 1)
        (λ _. send_command api host port password (countdown_message (suc i)) timeout >>= λ sent.
          elim sent [ ok _ ↦ countdown_loop api host port password timeout i | err _ ↦ pure tt ])
        (search (footprint)) (λ _. search (footprint, more))

  Makes-countdown :
      (host : String) (port : ℤ) (password : String) (timeout : ℤ) (n : ℕ)
      → Makes P (countdown api host port password timeout n)
  unfolding countdown
  Makes-countdown host port password timeout n = search (footprint, Makes-countdown_loop)

  pub Makes-send_graceful_shutdown :
      (config : Option GracefulShutdownSpec) (gs : GameServer)
      → Makes P (send_graceful_shutdown api config gs)
  unfolding send_graceful_shutdown
  Makes-send_graceful_shutdown none gs = Makes-pure tt
  Makes-send_graceful_shutdown (some config) gs = search (footprint, Makes-countdown)

module _ {P : Call → Type 0}
    (applies : (svc : Service) (f : Service → Service) → P (Call.apply_service svc f))
    (api : Api) where
  pub Makes-ensure_fleet_service :
      (fleet : GameServerFleet) (gs : GameServer) → Makes P (ensure_fleet_service api fleet gs)
  unfolding ensure_fleet_service build_fleet_service
  Makes-ensure_fleet_service fleet gs =
      let svc = build_fleet_service fleet gs in
      elim (Option-cases (api.set_controller_reference fleet.meta svc.meta)) [
        | inl h ↦ rw (h, ensure_fleet_service) (search (footprint))
        | inr (meta, h) ↦ rw (h, ensure_fleet_service) (search (footprint))
      ]
