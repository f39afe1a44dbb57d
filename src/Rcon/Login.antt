-- ===== src/Rcon/Login.antt =====
-- A session against a server that answers with well-formed packets.
use gobehost_operator.Prelude.{ℕ, ◌+◌, ◌<◌, ◌≡◌, refl, true, List, [], ◌∷◌, ◌++◌, arith, length}
use gobehost_operator.Prelude.Int.{ℤ, pos}
use gobehost_operator.Rcon.Packets.{write_packet, success, failure, read_packet}
use gobehost_operator.Rcon.Session.{
  Connection, login_failed, login_packet, command_packet, send_after_login, check_login,
  send_command,
}
use gobehost_operator.Rcon.RoundTrip.{IsInt32, read_packet-write_packet}

-- A network that reaches the server and writes what it is given.
pub record IsUp (conn : Connection) : Type 0 where
  pub dials : conn.dials ≡ true
  pub sets_deadline : (n : ℕ) → conn.sets_deadline n ≡ true
  pub accepts : (sent : List (List ℕ)) → conn.accepts sent ≡ true

-- Over a network that works, a server that answers the login by a packet with a body and the command
-- by a packet with the request id 1 makes SendCommand return that packet's body, and the two packets
-- are all that was written.
pub send_command_answered :
    (conn : Connection) (password command : List ℕ) (id ty ty' : ℤ) (b : ℕ)
    (greeting reply first second : List ℕ)
    → IsUp conn
    → IsInt32 id
    → length (b ∷ greeting) + 10 < 2147483648
    → length reply + 10 < 2147483648
    → conn.replies (login_packet password ∷ []) ≡ write_packet id ty (b ∷ greeting) ++ first
    → first ++ conn.replies (login_packet password ∷ command_packet command ∷ [])
      ≡ write_packet (pos 1) ty' reply ++ second
    → send_command conn password command
      ≡ (success reply, login_packet password ∷ command_packet command ∷ [])
unfolding send_command check_login send_after_login
send_command_answered conn password command id ty ty' b greeting reply first second up i s s' e e' =
    rw
      (
        up.dials,
        up.sets_deadline 0,
        up.accepts (login_packet password ∷ []),
        e,
        read_packet-write_packet id ty (b ∷ greeting) first i s,
        up.sets_deadline 1,
        up.accepts (login_packet password ∷ command_packet command ∷ []),
        e',
        read_packet-write_packet (pos 1) ty' reply second (omega arith) s',
      )
      refl

-- Over a network that works, a server that answers the login by a packet with an empty body, whatever
-- its request id, is taken to have refused it: the command is never written.
pub send_command_empty_login :
    (conn : Connection) (password command : List ℕ) (id ty : ℤ) (later : List ℕ)
    → IsUp conn
    → IsInt32 id
    → conn.replies (login_packet password ∷ []) ≡ write_packet id ty [] ++ later
    → send_command conn password command ≡ (failure login_failed, login_packet password ∷ [])
unfolding send_command check_login
send_command_empty_login conn password command id ty later up i e =
    let answer : read_packet (conn.replies (login_packet password ∷ []))
        ≡ success (record { body = []; req_id = id; later = later }) =
      rw e (read_packet-write_packet id ty [] later i (omega arith)) in
    simp (up.dials, up.sets_deadline 0, up.accepts (login_packet password ∷ []), answer)
