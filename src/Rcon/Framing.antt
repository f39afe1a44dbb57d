-- ===== src/Rcon/Framing.antt =====
-- What readPacket takes from the stream, whatever bytes arrive.
use gobehost_operator.Prelude.{
  ℕ, zero, suc, ◌+◌, ◌*◌, ◌≤◌, ◌≡◌, ◌≢◌, false, true, refl, sym, ap, ◌∙◌, inl, inr, List, [], ◌∷◌,
  ◌++◌, Option, none, some, arith, ltb, length, Bool-cases, Option-cases,
}
use gobehost_operator.Prelude.Int.{ℤ, pos, negsuc}
use gobehost_operator.Rcon.Packets.{
  signed_of, get_word, read_full, without_two, ReadError, Packet, Result, success, parse_buffer,
  read_sized, read_packet,
}

read_full-append :
    (n : ℕ) (stream buf later : List ℕ)
    → read_full n stream ≡ some (buf, later)
    → (stream ≡ buf ++ later) × (length buf ≡ n)
unfolding read_full
read_full-append zero stream buf later h = (cc, cc)
read_full-append (suc n) [] buf later h = cc
read_full-append (suc n) (b ∷ stream) buf later h = elim (Option-cases (read_full n stream)) [
  | inl e ↦ absurd (ground (arith, h, e))
  | inr ((got, rest), e) ↦
      let (split, long) = read_full-append n stream got rest e in
      let same : ◌≡◌ {A = Option (List ℕ × List ℕ)} (some (b ∷ got, rest)) (some (buf, later)) =
        rw (e, read_full) at h in
      let of_buf : b ∷ got ≡ buf = cc in
      let of_later : rest ≡ later = cc in
      (rw (← of_buf, ← of_later) (ap (λ s. b ∷ s) split), rw (← of_buf) (omega (arith, long)))
]

length-without_two : (xs : List ℕ) → 2 ≤ length xs → length (without_two xs) + 2 ≡ length xs
unfolding without_two
length-without_two [] h = absurd (omega arith)
length-without_two (a ∷ []) h = absurd (omega arith)
length-without_two (a ∷ b ∷ []) h = omega arith
length-without_two (a ∷ b ∷ c ∷ xs) h = omega (arith, length-without_two (b ∷ c ∷ xs))

-- The bytes of one packet: a length, and as many bytes: of id, of type, the body, and two at the end.
pub record IsFramed (stream : List ℕ) (p : Packet) : Type 0 where
  pub frame : List ℕ
  pub announced : ℕ
  pub contents : List ℕ
  pub split : stream ≡ frame ++ p.later
  pub word : get_word frame ≡ some (announced, contents)
  pub size : signed_of announced ≡ pos (length contents)
  pub of_body : length contents ≡ 4 + 4 + length p.body + 2

success_cancel : (p q : Packet) → ◌≡◌ {A = Result ReadError Packet} (success p) (success q) → p ≡ q
success_cancel p q h = cc

parse_buffer-framed :
    (buf later : List ℕ) (p : Packet)
    → 10 ≤ length buf
    → parse_buffer (some (buf, later)) ≡ success p
    → (length buf ≡ length p.body + 10) × (p.later ≡ later)
unfolding parse_buffer get_word
parse_buffer-framed (a ∷ b ∷ c ∷ d ∷ e ∷ f ∷ g ∷ h ∷ body) later p long got =
    let held : length (without_two body) + 2 ≡ length body =
      length-without_two body (omega arith) in
    let same = success_cancel _ p got in
    let of_body : without_two body ≡ p.body = ap (λ (q : Packet). q.body) same in
    (rw (← of_body) (omega (arith, held)), sym (ap (λ (q : Packet). q.later) same))
parse_buffer-framed buf later p long got = absurd (omega arith)

ltb-false : (n : ℕ) → ltb n 10 ≡ false → 10 ≤ n
ltb-false n h = ground arith

read_sized-long :
    (n : ℕ) (stream : List ℕ)
    → ltb n 10 ≡ false
    → read_sized (pos n) stream ≡ parse_buffer (read_full n stream)
unfolding read_sized
read_sized-long n stream long = rw long refl

read_sized-short :
    (n : ℕ) (stream : List ℕ) (p : Packet) → ltb n 10 ≡ true → read_sized (pos n) stream ≢ success p
unfolding read_sized
read_sized-short n stream p short h = ground (arith, h, short)

read_sized-negative :
    (n : ℕ) (stream : List ℕ) (p : Packet) → read_sized (negsuc n) stream ≢ success p
unfolding read_sized
read_sized-negative n stream p h = cc

parse_buffer-none : (p : Packet) → parse_buffer none ≢ success p
unfolding parse_buffer
parse_buffer-none p h = cc

-- What readPacket makes of a length that was read.
read_sized-framed :
    (n : ℤ) (stream : List ℕ) (p : Packet)
    → read_sized n stream ≡ success p
    → (buf : List ℕ) × (stream ≡ buf ++ p.later)
      × (length buf ≡ length p.body + 10)
      × (n ≡ pos (length buf))
read_sized-framed (negsuc n) stream p h = absurd (read_sized-negative n stream p h)
read_sized-framed (pos n) stream p h = elim (Bool-cases (ltb n 10)) [
  | inl short ↦ absurd (read_sized-short n stream p short h)
  | inr long ↦
      let parsed = sym (read_sized-long n stream long) ∙ h in
      elim (Option-cases (read_full n stream)) [
        | inl e ↦ absurd (parse_buffer-none p (rw e at parsed))
        | inr ((buf, later), e) ↦
            let (split, size) = read_full-append n stream buf later e in
            let enough : 10 ≤ length buf = rw size (ltb-false n long) in
            let (whole, left) = parse_buffer-framed buf later p enough (rw e at parsed) in
            (buf, rw left split, whole, rw size refl)
      ]
]

-- If readPacket takes a packet from a stream, the stream begins with its frame: a length of four
-- bytes, and as many bytes as that says, ten more than the body has. What follows the frame is left
-- for the next call.
pub read_packet-IsFramed :
    (stream : List ℕ) (p : Packet) → read_packet stream ≡ success p → IsFramed stream p
unfolding read_packet get_word
read_packet-IsFramed (a ∷ b ∷ c ∷ d ∷ stream) p h =
    let w = a + 256 * b + 65536 * c + 16777216 * d in
    let (buf, split, size, n) = read_sized-framed (signed_of w) stream p h in
    record {
      frame = a ∷ b ∷ c ∷ d ∷ buf;
      announced = w;
      contents = buf;
      split = ap (λ s. a ∷ b ∷ c ∷ d ∷ s) split;
      word = refl;
      size = n;
      of_body = omega (arith, size);
    }
read_packet-IsFramed (a ∷ b ∷ c ∷ []) p h = absurd cc
read_packet-IsFramed (a ∷ b ∷ []) p h = absurd cc
read_packet-IsFramed (a ∷ []) p h = absurd cc
read_packet-IsFramed [] p h = absurd cc
