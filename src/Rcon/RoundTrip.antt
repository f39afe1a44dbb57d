-- ===== src/Rcon/RoundTrip.antt =====
-- A packet that is written is read back.
use gobehost_operator.Prelude.{
  ℕ, ◌+◌, ◌*◌, ◌/◌, ◌%◌, ◌≤◌, ◌<◌, ◌≡◌, refl, ap, ◌∙◌, List, [], ◌∷◌, ◌++◌, some, ltb, arith,
  length-append, length, true, false,
}
use gobehost_operator.Prelude.Int.{ℤ, pos, negsuc}
use gobehost_operator.Rcon.Packets.{
  word_of, signed_of, put_word, get_word, write_packet, read_full, without_two, success,
  parse_buffer, read_sized, read_packet,
}

get_word-put_word :
    (w : ℕ) (later : List ℕ) → w < 4294967296 → get_word (put_word w ++ later) ≡ some (w, later)
unfolding get_word put_word
get_word-put_word w later h = ap (λ (v : ℕ). some (v, later)) (omega arith)

-- The values of an int32.
abbrev pub IsInt32 : ℤ → Type 0
IsInt32 (pos n) = n < 2147483648
IsInt32 (negsuc n) = n < 2147483648

signed_of-word_of : (v : ℤ) → IsInt32 v → signed_of (word_of v) ≡ v
unfolding signed_of word_of
signed_of-word_of (pos n) h = ground arith
signed_of-word_of (negsuc n) h = ground arith

word_of_lt : (v : ℤ) → word_of v < 4294967296
unfolding word_of
word_of_lt (pos n) = omega arith
word_of_lt (negsuc n) = omega arith

read_full-append : (xs ys : List ℕ) → read_full (length xs) (xs ++ ys) ≡ some (xs, ys)
unfolding read_full
read_full-append [] ys = refl
read_full-append (x ∷ xs) ys = rw (read_full-append xs ys) refl

read_full_of_length :
    (n : ℕ) (xs ys : List ℕ) → length xs ≡ n → read_full n (xs ++ ys) ≡ some (xs, ys)
read_full_of_length n xs ys e = rw (← e) (read_full-append xs ys)

-- The number that the four bytes of `w` stand for.
abbrev bytes_sum : ℕ → ℕ
bytes_sum w =
    w % 256 + 256 * (w / 256 % 256) + 65536 * (w / 65536 % 256) + 16777216 * (w / 16777216 % 256)

bytes_sum-eq : (w : ℕ) → w < 4294967296 → bytes_sum w ≡ w
bytes_sum-eq w h = omega arith

signed_of-bytes_sum :
    (n : ℕ) → n + 10 < 2147483648 → signed_of (bytes_sum ((8 + n + 2) % 4294967296)) ≡ pos (n + 10)
unfolding signed_of
signed_of-bytes_sum n h =
    let e : bytes_sum ((8 + n + 2) % 4294967296) ≡ n + 10 =
      bytes_sum-eq ((8 + n + 2) % 4294967296) (omega arith) ∙ omega arith in
    let small : ltb (n + 10) 2147483648 ≡ true = ground arith in rw (e, small) refl

without_two-append : (body : List ℕ) → without_two (body ++ 0 ∷ 0 ∷ []) ≡ body
unfolding without_two
without_two-append [] = refl
without_two-append (a ∷ []) = refl
without_two-append (a ∷ b ∷ []) = refl
without_two-append (a ∷ b ∷ c ∷ bytes) = ap (λ xs. a ∷ xs) (without_two-append (b ∷ c ∷ bytes))

-- What a packet has after its length.
abbrev contents : ℤ → ℤ → List ℕ → List ℕ
contents req_id pkt_type body =
    put_word (word_of req_id) ++ (put_word (word_of pkt_type) ++ (body ++ 0 ∷ 0 ∷ []))

length-contents :
    (req_id pkt_type : ℤ) (body : List ℕ)
    → length (contents req_id pkt_type body) ≡ length body + 10
unfolding put_word
length-contents req_id pkt_type body = omega (arith, length-append body (0 ∷ 0 ∷ []))

parse_contents :
    (req_id pkt_type : ℤ) (body later : List ℕ)
    → IsInt32 req_id
    → parse_buffer (some (contents req_id pkt_type body, later))
      ≡ success (record { body = body; req_id = req_id; later = later })
unfolding parse_buffer
parse_contents req_id pkt_type body later h =
    rw
      (
        get_word-put_word (word_of req_id) (put_word (word_of pkt_type) ++ (body ++ 0 ∷ 0 ∷ []))
            (word_of_lt req_id),
        get_word-put_word (word_of pkt_type) (body ++ 0 ∷ 0 ∷ []) (word_of_lt pkt_type),
        without_two-append body,
        signed_of-word_of req_id h,
      )
      refl

read_sized-contents :
    (n : ℕ) (req_id pkt_type : ℤ) (body later : List ℕ)
    → IsInt32 req_id
    → length (contents req_id pkt_type body) ≡ n
    → 10 ≤ n
    → read_sized (pos n) (contents req_id pkt_type body ++ later)
      ≡ success (record { body = body; req_id = req_id; later = later })
unfolding read_sized
read_sized-contents n req_id pkt_type body later h e le =
    let long : ltb n 10 ≡ false = ground arith in
    rw
      (
        long,
        read_full_of_length n (contents req_id pkt_type body) later e,
        parse_contents req_id pkt_type body later h,
      )
      refl

-- A packet that writePacket wrote is read back by readPacket, its request id and its body, and the
-- bytes after it are left in the stream, for an int32 as id and a body of less than 2^31 - 10 bytes.
pub read_packet-write_packet :
    (req_id pkt_type : ℤ) (body later : List ℕ)
    → IsInt32 req_id
    → length body + 10 < 2147483648
    → read_packet (write_packet req_id pkt_type body ++ later)
      ≡ success (record { body = body; req_id = req_id; later = later })
unfolding read_packet write_packet put_word
read_packet-write_packet req_id pkt_type body later h short =
    rw (signed_of-bytes_sum (length body) short) (
      read_sized-contents (length body + 10) req_id pkt_type body later h
        (length-contents req_id pkt_type body) (omega arith))
