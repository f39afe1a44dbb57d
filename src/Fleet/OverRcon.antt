-- ===== src/Fleet/OverRcon.antt =====
-- The warning of a fleet over the RCON client: the commands of the controller are sessions of
-- SendCommand.
use gobehost_operator.Prelude.{
  ℕ, ◌+◌, ◌<◌, ◌≡◌, refl, ◌∙◌, ap, true, false, String, List, [], ◌∷◌, ◌++◌, length, some, ◌==◌,
}
use gobehost_operator.Prelude.Int.{ℤ, pos}
use gobehost_operator.Api.{GameServer, GracefulShutdownSpec}
use gobehost_operator.Cluster.{Response, ok, err, other_error, Call, Log, Api}
use gobehost_operator.Rcon.{
  Connection, RconError, Result, success, failure, login_packet, command_packet, write_packet,
  send_command,
}
use gobehost_operator.Rcon.RoundTrip.{IsInt32}
use gobehost_operator.Rcon.Login.{IsUp, send_command_answered, send_command_empty_login}
use gobehost_operator.Fleet.Statuses.{
  countdown_of, rcon_port_of, rcon_timeout, first_message, headless_host,
}
use gobehost_operator.Fleet.Rollout.{countdown, send_graceful_shutdown}
use gobehost_operator.Fleet.Warning.{Accepts, password_of}

-- The network, by the calls made so far, the host and the port; and the bytes of a text and back.
pub record Network : Type 0 where
  pub reach : Log → String → ℤ → Connection
  pub bytes : String → List ℕ
  pub text : List ℕ → String

abbrev answer_of : Network → Result RconError (List ℕ) → Response String
answer_of net (success reply) = ok (net.text reply)
answer_of net (failure e) = err other_error

-- rcon.SendCommand over the network, as the controller sees it.
abbrev pub over_network : Network → Log → String → ℤ → String → String → Response String
over_network net log host port password command =
    answer_of net
      (send_command (net.reach log host port) (net.bytes password) (net.bytes command)).0

-- The API's commands are those of the client.
abbrev pub UsesRcon : Api → Network → Type 0
UsesRcon api net =
    (log : Log) (host : String) (port : ℤ) (password command : String) (timeout : ℤ)
    → api.send_command log host port password command timeout
      ≡ over_network net log host port password command

-- A reachable server that answers a login as the protocol has it, by a packet with an empty body.
pub record AnswersEmpty (conn : Connection) : Type 0 where
  pub up : IsUp conn
  pub id : ℤ
  pub int32 : IsInt32 id
  pub type : ℤ
  pub later : List ℕ → List ℕ
  pub answer :
      (password : List ℕ)
      → conn.replies (login_packet password ∷ []) ≡ write_packet id type [] ++ later password

-- Where commands are sessions of SendCommand, each server that is reached answers a login by a packet
-- with an empty body, the warning is enabled and a password is set, the warning is one command: it
-- fails, and neither a further command nor a sleep follows.
pub warning_unheard :
    (api : Api) (net : Network) (config : GracefulShutdownSpec) (gs : GameServer) (log : Log)
    → UsesRcon api net
    → ((log : Log) (host : String) (port : ℤ) → AnswersEmpty (net.reach log host port))
    → config.enabled ≡ true
    → (password_of gs == "") ≡ false
    → let n = countdown_of config.countdown_seconds in
      send_graceful_shutdown api (some config) gs log ≡ (
        tt,
        Call.send_command
              (headless_host gs)
              (rcon_port_of config.rcon_port)
              (password_of gs)
              (first_message n)
              (rcon_timeout n)
            ∷ log,
      )
unfolding send_graceful_shutdown countdown
warning_unheard api net config gs log uses empty on word =
    let host = headless_host gs in
    let port = rcon_port_of config.rcon_port in
    let n = countdown_of config.countdown_seconds in
    let server = empty log host port in
    let unheard : api.send_command log host port (password_of gs) (first_message n) (rcon_timeout n)
        ≡ err other_error =
      uses log host port (password_of gs) (first_message n) (rcon_timeout n)
      ∙ ap (λ s. answer_of net s.0)
          (send_command_empty_login (net.reach log host port) (net.bytes (password_of gs))
            (net.bytes (first_message n)) server.id server.type
            (server.later (net.bytes (password_of gs))) server.up server.int32
            (server.answer (net.bytes (password_of gs)))) in
    rw (on, word, unheard) refl

-- A reachable server that answers a login by a packet with a body and a command by one with the id 1.
pub record Converses (conn : Connection) : Type 0 where
  pub up : IsUp conn
  pub id : ℤ
  pub int32 : IsInt32 id
  pub type : ℤ
  pub head : ℕ
  pub greeting : List ℕ
  pub short : length (head ∷ greeting) + 10 < 2147483648
  pub reply : List ℕ
  pub short_reply : length reply + 10 < 2147483648
  pub first : List ℕ
  pub second : List ℕ
  pub login :
      (password : List ℕ)
      → conn.replies (login_packet password ∷ []) ≡ write_packet id type (head ∷ greeting) ++ first
  pub command :
      (password command : List ℕ)
      → first ++ conn.replies (login_packet password ∷ command_packet command ∷ [])
        ≡ write_packet (pos 1) (pos 0) reply ++ second

-- Such a server accepts every command of the controller.
pub Converses-Accepts :
    (api : Api) (net : Network)
    → UsesRcon api net
    → ((log : Log) (host : String) (port : ℤ) → Converses (net.reach log host port))
    → Accepts api
Converses-Accepts api net uses talks log host port password command timeout =
    let s = talks log host port in
    (
      net.text s.reply,
      uses log host port password command timeout
          ∙ ap (λ r. answer_of net r.0)
              (send_command_answered (net.reach log host port) (net.bytes password)
                (net.bytes command) s.id s.type (pos 0) s.head s.greeting s.reply s.first s.second
                s.up s.int32 s.short s.short_reply (s.login (net.bytes password))
                (s.command (net.bytes password) (net.bytes command))),
    )
