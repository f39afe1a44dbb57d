-- ===== src/Fleet/Warning.antt =====
-- The countdown before an update: which commands are sent.
use gobehost_operator.Prelude.{
  ℕ, zero, suc, ◌+◌, ◌≡◌, ◌⊎◌, true, false, String, List, [], ◌∷◌, Option, none, some, arith, ◌==◌,
}
use gobehost_operator.Prelude.Int.{ℤ}
use gobehost_operator.Api.{GameServer, GracefulShutdownSpec}
use gobehost_operator.Cluster.{ok, Call, Log, Api}
use gobehost_operator.Fleet.Values.{get_rcon_password}
use gobehost_operator.Fleet.Statuses.{countdown_message}
use gobehost_operator.Fleet.Rollout.{send_graceful_shutdown}

-- The commands sent, the latest first.
abbrev pub commands : Log → List String
commands [] = []
commands (Call.send_command _ _ _ command _ ∷ log) = command ∷ commands log
commands (_ ∷ log) = commands log

-- The seconds slept.
abbrev pub slept : Log → ℕ
slept [] = 0
slept (Call.sleep n ∷ log) = n + slept log
slept (_ ∷ log) = slept log

-- The messages of the loop from `n` down to 1, in front of those sent before.
abbrev pub messages_onto : ℕ → List String → List String
messages_onto zero sent = sent
messages_onto (suc i) sent = messages_onto i (countdown_message (suc i) ∷ sent)

-- The game server accepts every command.
abbrev pub Accepts : Api → Type 0
Accepts api =
    (log : Log) (host : String) (port : ℤ) (password command : String) (timeout : ℤ)
    → (reply : String) × (api.send_command log host port password command timeout ≡ ok reply)

abbrev pub password_of : GameServer → String
password_of gs = get_rcon_password gs.spec.runtime.env

-- Without the configuration, with the warning disabled or with no password no call is made.
pub send_graceful_shutdown-silent :
    (api : Api) (config : Option GracefulShutdownSpec) (gs : GameServer) (log : Log)
    → (config ≡ none)
      ⊎ ((c : GracefulShutdownSpec) × (config ≡ some c)
          × ((c.enabled ≡ false) ⊎ ((password_of gs == "") ≡ true)))
    → send_graceful_shutdown api config gs log ≡ (tt, log)
unfolding send_graceful_shutdown
send_graceful_shutdown-silent api config gs log h = ground arith
