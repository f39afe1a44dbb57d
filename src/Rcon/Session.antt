-- ===== src/Rcon/Session.antt =====
-- internal/rcon/rcon.go: SendCommand, over a connection that is a parameter.
use gobehost_operator.Prelude.{ℕ, Bool, not, List, [], ◌∷◌, ◌++◌, if◌then◌else◌}
use gobehost_operator.Prelude.Int.{ℤ, pos, eqb_ℤ}
use gobehost_operator.Rcon.Packets.{
  ReadError, write_packet, Result, success, failure, Packet, read_packet,
}

-- The network of the package net: whether the server can be reached, whether the deadline can be
-- set for the first and the second time, whether the packets written so far went out, and the bytes
-- that the server sends after the last of them, until it falls silent.
pub record Connection : Type 0 where
  pub dials : Bool
  pub sets_deadline : ℕ → Bool
  pub accepts : List (List ℕ) → Bool
  pub replies : List (List ℕ) → List ℕ

pub data RconError : Type 0 where
  dial deadline write_login write_command login_failed : RconError
  login_response response : ReadError → RconError
  unexpected_id : ℤ → List ℕ → RconError

-- packetTypeCommand and packetTypeLogin
abbrev pub packet_type_command : ℤ
packet_type_command = pos 2

abbrev pub packet_type_login : ℤ
packet_type_login = pos 3

abbrev pub login_packet : List ℕ → List ℕ
login_packet password = write_packet (pos 0) packet_type_login password

abbrev pub command_packet : List ℕ → List ℕ
command_packet command = write_packet (pos 1) packet_type_command command

-- What SendCommand returns, and the packets that it wrote, in order.
abbrev pub Session : Type 0
Session = Result RconError (List ℕ) × List (List ℕ)

abbrev check_id : Result ReadError Packet → Result RconError (List ℕ)
check_id (failure e) = failure (response e)
check_id (success p) =
    if eqb_ℤ p.req_id (pos 1) then success p.body else failure (unexpected_id p.req_id p.body)

module _ (conn : Connection) (password command : List ℕ) where
  -- From the second deadline; `later` is what the first reading left in the stream.
  unfoldable pub send_after_login : List ℕ → Session
  unfolding read_packet write_packet
  send_after_login later =
      let login = login_packet password in
      let sent : List (List ℕ) = login ∷ command_packet command ∷ [] in
      if not (conn.sets_deadline 1)
      then (failure deadline, login ∷ [])
      else if not (conn.accepts sent)
      then (failure write_command, login ∷ [])
      else (check_id (read_packet (later ++ conn.replies sent)), sent)

  -- From the answer to the login
  unfoldable pub check_login : Result ReadError Packet → Session
  check_login (failure e) = (failure (login_response e), login_packet password ∷ [])
  check_login (success p) = elim (p.body) [
    | [] ↦ (failure login_failed, login_packet password ∷ [])
    | (_ ∷ _) ↦ send_after_login p.later
  ]

  -- SendCommand
  unfoldable pub send_command : Session
  unfolding read_packet write_packet
  send_command =
      let login = login_packet password in
      if not conn.dials
      then (failure dial, [])
      else if not (conn.sets_deadline 0)
      then (failure deadline, [])
      else if not (conn.accepts (login ∷ []))
      then (failure write_login, [])
      else check_login (read_packet (conn.replies (login ∷ [])))
