-- ===== src/Prelude/Hex.antt =====
-- A number below 2 ^ 32 is known from its eight digits.
use Prim.Native.Nat.{ℕ, zero, suc, ◌-◌, ◌/◌, ◌%◌, ◌<◌}
use Prim.Native.Char.{Char, code, nul}
use Prim.Native.String.{String}
use mathlib.Core.Path.{◌≡◌, refl, sym, ap, ◌∙◌}
use mathlib.Core.Bool.{Bool, true, ◌&&◌}
use native.Mathlib.Omega.{arith}
use gobehost_operator.Prelude.Tests.{ltb, eqb, if◌then◌else◌}
use gobehost_operator.Prelude.Text.{digit, hex8}

first : String → Char
first String.[] = nul
first (String.◌∷◌ c s) = c

others : String → String
others String.[] = ""
others (String.◌∷◌ c s) = s

-- The value of a digit, from its character.
value : Char → ℕ
value c = if ltb (code c) 58 then code c - 48 else code c - 87

abbrev fixes : (ℕ → ℕ) → ℕ → Bool
fixes f zero = true
fixes f (suc n) = eqb (f n) n && fixes f n

fixes_lem : (f : ℕ → ℕ) (n d : ℕ) → fixes f n ≡ true → d < n → f d ≡ d
fixes_lem f zero d h lt = absurd (omega arith)
fixes_lem f (suc n) d h lt = ground (arith, fixes_lem f n d)

value-digit : (d : ℕ) → d < 16 → value (digit d) ≡ d
unfolding value digit
value-digit d lt = fixes_lem (λ d. value (digit d)) 16 d refl lt

digit_cancel : (d e : ℕ) → d < 16 → e < 16 → digit d ≡ digit e → d ≡ e
digit_cancel d e hd he h = sym (value-digit d hd) ∙ ap value h ∙ value-digit e he

-- the digit in front, and what stands after it
read :
    (m n : ℕ) (s t : String)
    → Path String (String.◌∷◌ (digit (m % 16)) s) (String.◌∷◌ (digit (n % 16)) t)
    → (m % 16 ≡ n % 16) × (s ≡ t)
unfolding first others
read m n s t h =
    (digit_cancel (m % 16) (n % 16) (omega arith) (omega arith) (ap first h), ap others h)

pub hex8_cancel : (m n : ℕ) → m < 4294967296 → n < 4294967296 → hex8 m ≡ hex8 n → m ≡ n
unfolding hex8
hex8_cancel m n hm hn h =
    let (e7, h) = read (m / 268435456) (n / 268435456) _ _ h in
    let (e6, h) = read (m / 16777216) (n / 16777216) _ _ h in
    let (e5, h) = read (m / 1048576) (n / 1048576) _ _ h in
    let (e4, h) = read (m / 65536) (n / 65536) _ _ h in
    let (e3, h) = read (m / 4096) (n / 4096) _ _ h in
    let (e2, h) = read (m / 256) (n / 256) _ _ h in
    let (e1, h) = read (m / 16) (n / 16) _ _ h in let (e0, h) = read m n _ _ h in omega arith
