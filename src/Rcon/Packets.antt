-- ===== src/Rcon/Packets.antt =====
-- internal/rcon/rcon.go: packets as bytes. A Go string is the list of its bytes.
use gobehost_operator.Prelude.{
  ℕ, zero, suc, ◌+◌, ◌-◌, ◌*◌, ◌/◌, ◌%◌, List, [], ◌∷◌, ◌++◌, Option, none, some, ltb,
  if◌then◌else◌, length,
}
use gobehost_operator.Prelude.Int.{ℤ, pos, negsuc}

pub data ReadError : Type 0 where
  read_length read_payload : ReadError
  too_short : ℤ → ReadError

-- uint32(v) of an int32
unfoldable pub word_of : ℤ → ℕ
word_of (pos n) = n % 4294967296
word_of (negsuc n) = 4294967295 - n % 4294967296

-- int32(w) of a uint32
unfoldable pub signed_of : ℕ → ℤ
signed_of w = if ltb w 2147483648 then pos w else negsuc (4294967295 - w)

-- binary.LittleEndian.PutUint32
unfoldable pub put_word : ℕ → List ℕ
put_word w = w % 256 ∷ w / 256 % 256 ∷ w / 65536 % 256 ∷ w / 16777216 % 256 ∷ []

-- The four bytes at the head of a list as binary.LittleEndian.Uint32 reads them, and what follows.
unfoldable pub get_word : List ℕ → Option (ℕ × List ℕ)
get_word (a ∷ b ∷ c ∷ d ∷ bytes) = some (a + 256 * b + 65536 * c + 16777216 * d, bytes)
get_word _ = none

-- writePacket: the bytes that it writes.
unfoldable pub write_packet : ℤ → ℤ → List ℕ → List ℕ
unfolding word_of put_word
write_packet req_id pkt_type body =
    put_word ((4 + 4 + length body + 2) % 4294967296)
    ++ (put_word (word_of req_id) ++ (put_word (word_of pkt_type) ++ (body ++ 0 ∷ 0 ∷ [])))

push : ℕ → Option (List ℕ × List ℕ) → Option (List ℕ × List ℕ)
push b none = none
push b (some (bytes, later)) = some (b ∷ bytes, later)

-- io.ReadFull: so many bytes and what follows them; `none` if the stream ends before.
unfoldable pub read_full : ℕ → List ℕ → Option (List ℕ × List ℕ)
unfolding push
read_full zero stream = some ([], stream)
read_full (suc n) [] = none
read_full (suc n) (b ∷ stream) = push b (read_full n stream)

-- `if len(bodyBytes) >= 2 { bodyBytes = bodyBytes[:len(bodyBytes)-2] }`
unfoldable pub without_two : List ℕ → List ℕ
without_two [] = []
without_two (a ∷ []) = a ∷ []
without_two (a ∷ b ∷ []) = []
without_two (a ∷ b ∷ c ∷ bytes) = a ∷ without_two (b ∷ c ∷ bytes)

pub data Result (E A : Type 0) : Type 0 where
  success : A → Result E A
  failure : E → Result E A

-- What readPacket returns, and what it leaves of the stream.
pub record Packet : Type 0 where
  pub body : List ℕ
  pub req_id : ℤ
  pub later : List ℕ

-- The buffer of a packet: the request id, the type, which is not looked at, and the body. A
-- length of ten at least has been tested, so that a short buffer, an index out of range in Go,
-- does not occur.
with_type : ℤ → List ℕ → Option (ℕ × List ℕ) → Result ReadError Packet
unfolding without_two
with_type req_id later none = failure read_payload
with_type req_id later (some (_, body)) =
    success (record { body = without_two body; req_id = req_id; later = later })

with_id : List ℕ → Option (ℕ × List ℕ) → Result ReadError Packet
unfolding with_type get_word signed_of
with_id later none = failure read_payload
with_id later (some (w, after_id)) = with_type (signed_of w) later (get_word after_id)

unfoldable pub parse_buffer : Option (List ℕ × List ℕ) → Result ReadError Packet
unfolding with_id get_word
parse_buffer none = failure read_payload
parse_buffer (some (buf, later)) = with_id later (get_word buf)

unfoldable pub read_sized : ℤ → List ℕ → Result ReadError Packet
unfolding parse_buffer read_full
read_sized (pos n) stream =
    if ltb n 10 then failure (too_short (pos n)) else parse_buffer (read_full n stream)
read_sized (negsuc n) stream = failure (too_short (negsuc n))

with_length : Option (ℕ × List ℕ) → Result ReadError Packet
unfolding read_sized signed_of
with_length none = failure read_length
with_length (some (w, stream)) = read_sized (signed_of w) stream

-- readPacket, of the bytes that the connection still yields
unfoldable pub read_packet : List ℕ → Result ReadError Packet
unfolding with_length get_word
read_packet stream = with_length (get_word stream)
