-- ===== src/Fleet/Xor.antt =====
-- Exclusive or on the native numbers: bounds, and what it lets be cancelled.
use Prim.Native.Nat.{bit_xor, bit_xor-bitwise, digits, differ}
use gobehost_operator.Prelude.{
  ℕ, zero, suc, ◌+◌, ◌*◌, ◌/◌, ◌%◌, ◌^◌, ◌≤◌, ◌<◌, ◌≡◌, refl, ◌⊎◌, inl, inr, arith,
}
use native.Mathlib.Nat.{pow-suc}

abbrev xor_digits : ℕ → ℕ → ℕ → ℕ
xor_digits fuel a b = digits (λ y. y) differ fuel a b

-- Any two amounts of fuel that suffice agree.
xor_digits_agree : (b a n m : ℕ) → a ≤ m → a ≤ n → xor_digits m a b ≡ xor_digits n a b
xor_digits_agree b zero zero zero hm hn = refl
xor_digits_agree b zero zero (suc m) hm hn = refl
xor_digits_agree b zero (suc n) zero hm hn = refl
xor_digits_agree b zero (suc n) (suc m) hm hn = refl
xor_digits_agree b (suc a) zero m hm hn = absurd (omega arith)
xor_digits_agree b (suc a) (suc n) zero hm hn = absurd (omega arith)
xor_digits_agree b (suc a) (suc n) (suc m) hm hn =
    omega (arith, xor_digits_agree (b / 2) (suc a / 2) n m (omega arith) (omega arith))

bit_xor_step : (a b : ℕ) → bit_xor a b ≡ bit_xor (a / 2) (b / 2) * 2 + differ (a % 2) (b % 2)
bit_xor_step zero b = omega (arith, bit_xor-bitwise 0 b, bit_xor-bitwise 0 (b / 2))
bit_xor_step (suc a) b = omega (
  arith,
  bit_xor-bitwise (suc a) b,
  bit_xor-bitwise (suc a / 2) (b / 2),
  xor_digits_agree (b / 2) (suc a / 2) (suc a / 2) a (omega arith) (omega arith),
)

binary : (x : ℕ) → x < 2 → (x ≡ 0) ⊎ (x ≡ 1)
binary zero h = inl refl
binary (suc zero) h = inr refl
binary (suc (suc x)) h = absurd (omega arith)

differ_sum : (x y : ℕ) → x < 2 → y < 2 → differ x y ≡ (x + y) % 2
differ_sum x y hx hy = elim (binary x hx) [
  | inl ex ↦ elim (binary y hy) [ inl ey ↦ rw (ex, ey) refl | inr ey ↦ rw (ex, ey) refl ]
  | inr ex ↦ elim (binary y hy) [ inl ey ↦ rw (ex, ey) refl | inr ey ↦ rw (ex, ey) refl ]
]

-- One binary digit of the result.
bit_xor_digit : (a b : ℕ) → bit_xor a b ≡ bit_xor (a / 2) (b / 2) * 2 + (a + b) % 2
bit_xor_digit a b =
    omega (arith, bit_xor_step a b, differ_sum (a % 2) (b % 2) (omega arith) (omega arith))

pub bit_xor-lt : (k a b : ℕ) → a < 2 ^ k → b < 2 ^ k → bit_xor a b < 2 ^ k
bit_xor-lt zero a b ha hb =
    let ea : a ≡ 0 = omega arith in let eb : b ≡ 0 = omega arith in rw (ea, eb) (omega arith)
bit_xor-lt (suc k) a b ha hb = omega (
  arith,
  pow-suc 2 k,
  bit_xor_digit a b,
  bit_xor-lt k (a / 2) (b / 2) (omega (arith, pow-suc 2 k)) (omega (arith, pow-suc 2 k)),
)

-- Numbers that agree after an exclusive or with the same number agree: on the left,
pub bit_xor_cancel : (k a b c : ℕ) → a < 2 ^ k → b < 2 ^ k → bit_xor a c ≡ bit_xor b c → a ≡ b
bit_xor_cancel zero a b c ha hb h = omega arith
bit_xor_cancel (suc k) a b c ha hb h = omega (
  arith,
  bit_xor_digit a c,
  bit_xor_digit b c,
  bit_xor_cancel k (a / 2) (b / 2) (c / 2) (omega (arith, pow-suc 2 k)) (omega (arith, pow-suc 2 k))
      (omega (arith, bit_xor_digit a c, bit_xor_digit b c)),
)

-- and on the right.
pub bit_xor_cancel_left : (k a b c : ℕ) → a < 2 ^ k → b < 2 ^ k → bit_xor c a ≡ bit_xor c b → a ≡ b
bit_xor_cancel_left zero a b c ha hb h = omega arith
bit_xor_cancel_left (suc k) a b c ha hb h = omega (
  arith,
  bit_xor_digit c a,
  bit_xor_digit c b,
  bit_xor_cancel_left k (a / 2) (b / 2) (c / 2) (omega (arith, pow-suc 2 k))
      (omega (arith, pow-suc 2 k)) (omega (arith, bit_xor_digit c a, bit_xor_digit c b)),
)
