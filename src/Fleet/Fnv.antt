-- ===== src/Fleet/Fnv.antt =====
-- FNV-1a: a change of one byte changes the sum.
use Prim.Native.Nat.{bit_xor}
use gobehost_operator.Prelude.{ℕ, ◌*◌, ◌%◌, ◌<◌, ◌≡◌, sym, ap, ◌∙◌, List, [], ◌∷◌, ◌++◌, All, arith}
use gobehost_operator.Fleet.Values.{fnv32a}
use gobehost_operator.Fleet.Xor.{bit_xor-lt, bit_xor_cancel, bit_xor_cancel_left}

abbrev pub IsByte : ℕ → Type 0
IsByte b = b < 256

-- the inner step of the loop
abbrev mix : ℕ → ℕ → ℕ
mix h b = bit_xor h b * 16777619 % 4294967296

-- The FNV prime has an inverse modulo 2 ^ 32.
prime_inverse : (h : ℕ) → h < 4294967296 → (h * 16777619 % 4294967296) * 899433627 % 4294967296 ≡ h
prime_inverse h lt = omega arith

prime_cancel :
    (h k : ℕ)
    → h < 4294967296
    → k < 4294967296
    → h * 16777619 % 4294967296 ≡ k * 16777619 % 4294967296
    → h ≡ k
prime_cancel h k hh hk e =
    sym (prime_inverse h hh) ∙ ap (λ x. x * 899433627 % 4294967296) e ∙ prime_inverse k hk

xor_word : (h b : ℕ) → h < 4294967296 → IsByte b → bit_xor h b < 4294967296
xor_word h b hh hb = bit_xor-lt 32 h b hh (omega arith)

-- the state
mix_cancel : (h k b : ℕ) → h < 4294967296 → k < 4294967296 → IsByte b → mix h b ≡ mix k b → h ≡ k
mix_cancel h k b hh hk hb e =
    bit_xor_cancel 32 h k b hh hk (prime_cancel _ _ (xor_word h b hh hb) (xor_word k b hk hb) e)

mix_byte : (h b c : ℕ) → h < 4294967296 → IsByte b → IsByte c → mix h b ≡ mix h c → b ≡ c
mix_byte h b c hh hb hc e =
    bit_xor_cancel_left 32 b c h (omega arith) (omega arith)
      (prime_cancel _ _ (xor_word h b hh hb) (xor_word h c hh hc) e)

pub fnv32a-lt : (h : ℕ) (bs : List ℕ) → h < 4294967296 → fnv32a h bs < 4294967296
unfolding fnv32a
fnv32a-lt h [] hh = hh
fnv32a-lt h (b ∷ bs) hh = fnv32a-lt (mix h b) bs (omega arith)

fnv32a_cancel :
    (h k : ℕ) (bs : List ℕ)
    → h < 4294967296
    → k < 4294967296
    → All IsByte bs
    → fnv32a h bs ≡ fnv32a k bs
    → h ≡ k
unfolding fnv32a
fnv32a_cancel h k [] hh hk hbs e = e
fnv32a_cancel h k (b ∷ bs) hh hk (hb, hbs) e =
    mix_cancel h k b hh hk hb
      (fnv32a_cancel (mix h b) (mix k b) bs (omega arith) (omega arith) hbs e)

pub fnv32a_byte :
    (h : ℕ) (xs : List ℕ) (b c : ℕ) (ys : List ℕ)
    → h < 4294967296
    → IsByte b
    → IsByte c
    → All IsByte ys
    → fnv32a h (xs ++ b ∷ ys) ≡ fnv32a h (xs ++ c ∷ ys)
    → b ≡ c
unfolding fnv32a
fnv32a_byte h [] b c ys hh hb hc hys e =
    mix_byte h b c hh hb hc (fnv32a_cancel (mix h b) (mix h c) ys (omega arith) (omega arith) hys e)
fnv32a_byte h (x ∷ xs) b c ys hh hb hc hys e =
    fnv32a_byte (mix h x) xs b c ys (omega arith) hb hc hys e
