-- ===== src/Fleet/Statuses.antt =====
-- internal/controller/gameserverfleet_controller.go: the steps of an active fleet.
use gobehost_operator.Prelude.{
  ℕ, zero, suc, ◌+◌, ◌-◌, Bool, true, false, String, ◌<>◌, [], ◌∷◌, ◌++◌, none, ltb, if◌then◌else◌,
  itoa,
}
use gobehost_operator.Prelude.Int.{ℤ, pos, negsuc, eqb_ℤ}
use gobehost_operator.Kube.{Time, condition_true, condition_false, Service}
use gobehost_operator.Api.{
  GameServerPhase, failed, GameServer, FleetPhase, fleet_progressing, fleet_available,
  fleet_degraded, fleet_failed, fleet_available_condition, fleet_progressing_condition,
  fleet_degraded_condition, GameServerFleet,
}
use gobehost_operator.Reconciler.{game_server_labels, set_fleet_condition}
use gobehost_operator.Fleet.Values.{complete_last, trim_history, build_service_ports}

abbrev pub fleet_requeue_interval : ℕ
fleet_requeue_interval = 10

-- `if v < 1 { v = 5 }`; a countdown is then a positive number.
abbrev pub countdown_of : ℤ → ℕ
countdown_of (pos zero) = 5
countdown_of (pos (suc n)) = suc n
countdown_of (negsuc n) = 5

abbrev pub rcon_port_of : ℤ → ℤ
rcon_port_of port = if eqb_ℤ port (pos 0) then pos 25575 else port

-- The int32 sum `countdown + 5`.
abbrev pub rcon_timeout : ℕ → ℤ
rcon_timeout n = if ltb (n + 5) 2147483648 then pos (n + 5) else negsuc (4294967296 - (n + 5) - 1)

abbrev pub first_message : ℕ → String
first_message n = "say Server restarting for update in " <> (itoa (pos n) <> " seconds")

abbrev pub countdown_message : ℕ → String
countdown_message n = "say Server restarting in " <> (itoa (pos n) <> "...")

abbrev pub headless_host : GameServer → String
headless_host gs = gs.meta.name <> ("-headless." <> (gs.meta.namespace <> ".svc.cluster.local"))

-- The edit that ensureFleetService makes of the Service that it finds, or of the new one.
unfoldable pub mutate_fleet_service : GameServer → Service → Service
unfolding game_server_labels build_service_ports
mutate_fleet_service gs svc = record svc {
  meta = record (svc.meta) { annotations = gs.spec.network.annotations };
  selector = game_server_labels gs;
  type = gs.spec.network.service_type;
  ports = build_service_ports gs.spec.network.ports;
}

-- `fleet.Status.X = …` for the fields that the steps set
abbrev pub with_phase : FleetPhase → GameServerFleet → GameServerFleet
with_phase phase fleet = record fleet { status = record (fleet.status) { phase = phase } }

abbrev pub is_failed : GameServerPhase → Bool
is_failed failed = true
is_failed _ = false

abbrev pub is_progressing : FleetPhase → Bool
is_progressing fleet_progressing = true
is_progressing _ = false

-- syncStatus with no GameServer; this status is not written to the server.
unfoldable pub status_missing : Time → GameServerFleet → GameServerFleet
unfolding set_fleet_condition
status_missing t fleet =
    set_fleet_condition t
      (record fleet {
        status = record (fleet.status) { ready_replicas = 0; phase = fleet_progressing };
      })
      fleet_available_condition condition_false "NoGameServer" "No GameServer found"

unfoldable pub status_ready : Time → GameServerFleet → GameServerFleet
unfolding set_fleet_condition
status_ready t fleet =
    let fleet = record fleet {
      status = record (fleet.status) { ready_replicas = 1; phase = fleet_available };
    } in
    let fleet =
      set_fleet_condition t fleet fleet_available_condition condition_true "Available"
        "GameServer is ready" in
    set_fleet_condition t fleet fleet_progressing_condition condition_false "Available"
      "GameServer is ready"

unfoldable pub status_not_ready : Time → GameServerPhase → GameServerFleet → GameServerFleet
unfolding set_fleet_condition
status_not_ready t phase fleet =
    let fleet = record fleet { status = record (fleet.status) { ready_replicas = 0 } } in
    let fleet =
      if is_failed phase
      then set_fleet_condition t (with_phase fleet_failed fleet) fleet_degraded_condition
          condition_true "GameServerFailed" "GameServer is in Failed phase"
      else set_fleet_condition t (with_phase fleet_degraded fleet) fleet_degraded_condition
          condition_true "GameServerNotReady" "GameServer is not ready" in
    set_fleet_condition t fleet fleet_available_condition condition_false "NotAvailable"
      "GameServer is not ready"

-- The status that syncStatus writes for a GameServer.
unfoldable pub synced : Time → GameServerFleet → GameServer → GameServerFleet
unfolding status_ready status_not_ready
synced t fleet gs =
    let fleet' =
      if gs.status.ready then status_ready t fleet else status_not_ready t gs.status.phase fleet in
    record fleet' {
      status = record (fleet'.status) { observed_generation = fleet'.meta.generation };
    }

-- The status that completeUpdate writes.
unfoldable pub completed : Time → GameServerFleet → GameServer → GameServerFleet
unfolding set_fleet_condition complete_last trim_history
completed t fleet gs =
    let fleet = record fleet {
      status = record (fleet.status) {
        phase = fleet_available;
        current_game_server = gs.meta.name;
        ready_replicas = 1;
      };
    } in
    let fleet =
      set_fleet_condition t fleet fleet_available_condition condition_true "Available"
        "GameServer is ready" in
    let fleet =
      set_fleet_condition t fleet fleet_progressing_condition condition_false "Available"
        "Rolling update completed" in
    record fleet {
      status = record (fleet.status) {
        history = trim_history (complete_last t gs.spec.game.version fleet.status.history);
        observed_generation = fleet.meta.generation;
      };
    }

-- The status that startSpecUpdate writes.
unfoldable pub started : Time → GameServerFleet → GameServer → GameServerFleet
unfolding set_fleet_condition
started t fleet gs =
    let fleet = record fleet {
      status = record (fleet.status) {
        phase = fleet_progressing;
        history =
            fleet.status.history
            ++ record {
              started_at = t;
              completed_at = none;
              from_version = gs.spec.game.version;
              to_version = fleet.spec.template.spec.game.version;
              result = "";
              message = "";
            }
              ∷ [];
      };
    } in
    set_fleet_condition t fleet fleet_progressing_condition condition_true "Updating"
      "GameServer spec updated"

-- The status that createGameServer writes.
unfoldable pub created : Time → GameServerFleet → GameServer → GameServerFleet
unfolding set_fleet_condition
created t fleet gs =
    set_fleet_condition t
      (record fleet {
        status = record (fleet.status) {
          current_game_server = gs.meta.name;
          phase = fleet_progressing;
        };
      })
      fleet_progressing_condition condition_true "Creating" "GameServer created"

-- The status that handleFailedGS writes.
unfoldable pub replaced : GameServerFleet → GameServerFleet
replaced fleet = record fleet {
  status = record (fleet.status) { current_game_server = ""; phase = fleet_progressing };
}
