-- ===== src/Tests/Sessions.antt =====
-- The theorems on the RCON client, at concrete packets and sessions.
use gobehost_operator.Prelude.{ℕ, ◌≡◌, refl, true, List, [], ◌∷◌, ◌++◌, arith}
use gobehost_operator.Prelude.Int.{pos, negsuc}
use gobehost_operator.Rcon.{
  write_packet, success, read_packet, Connection, login_packet, command_packet, send_command,
}
use gobehost_operator.Rcon.RoundTrip.{read_packet-write_packet}
use gobehost_operator.Rcon.Framing.{IsFramed, read_packet-IsFramed}
use gobehost_operator.Rcon.Login.{IsUp, send_command_answered}

abbrev say : List ℕ
say = 115 ∷ 97 ∷ 121 ∷ []

abbrev secret : List ℕ
secret = 112 ∷ 119 ∷ []

write_packet_test :
    write_packet (pos 1) (pos 2) say
    ≡ 13 ∷ 0 ∷ 0 ∷ 0 ∷ 1 ∷ 0 ∷ 0 ∷ 0 ∷ 2 ∷ 0 ∷ 0 ∷ 0 ∷ 115 ∷ 97 ∷ 121 ∷ 0 ∷ 0 ∷ []
unfolding write_packet
write_packet_test = refl

read_packet-write_packet_example :
    read_packet (write_packet (negsuc 0) (pos 2) say ++ 7 ∷ [])
    ≡ success (record { body = say; req_id = negsuc 0; later = 7 ∷ [] })
read_packet-write_packet_example =
    read_packet-write_packet (negsuc 0) (pos 2) say (7 ∷ []) (omega arith) (omega arith)

-- The answer to a command, and the first byte of the packet after it.
abbrev answer_and_more : List ℕ
answer_and_more = 13 ∷ 0 ∷ 0 ∷ 0 ∷ 1 ∷ 0 ∷ 0 ∷ 0 ∷ 0 ∷ 0 ∷ 0 ∷ 0 ∷ 115 ∷ 97 ∷ 121 ∷ 0 ∷ 0 ∷ 7 ∷ []

read_packet-IsFramed_example :
    IsFramed answer_and_more (record { body = say; req_id = pos 1; later = 7 ∷ [] })
unfolding read_packet
read_packet-IsFramed_example =
    read_packet-IsFramed answer_and_more (record { body = say; req_id = pos 1; later = 7 ∷ [] })
      refl

-- A server that answers every packet by a packet with this body.
abbrev pub answering : List ℕ → Connection
answering body = record {
  dials = true;
  sets_deadline = λ n. true;
  accepts = λ sent. true;
  replies = λ sent. write_packet (pos 1) (pos 0) body ++ [];
}

pub answering-IsUp : (body : List ℕ) → IsUp (answering body)
answering-IsUp body = record { dials = refl; sets_deadline = λ n. refl; accepts = λ sent. refl }

send_command_answered_example :
    send_command (answering say) secret say
    ≡ (success say, login_packet secret ∷ command_packet say ∷ [])
send_command_answered_example =
    send_command_answered (answering say) secret say (pos 1) (pos 0) (pos 0) 115 (97 ∷ 121 ∷ []) say
      [] [] (answering-IsUp say) (omega arith) (omega arith) (omega arith) refl refl
