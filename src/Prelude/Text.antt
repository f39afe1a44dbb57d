-- ===== src/Prelude/Text.antt =====
-- The number formats that the source uses: `%d` and `%08x`.
use Prim.Native.Nat.{ℕ, zero, suc, ◌/◌, ◌%◌}
use Prim.Native.Char.{Char}
use Prim.Native.String.{String, ◌++◌, char_at}
use mathlib.Core.Path.{◌≡◌, refl}
use gobehost_operator.Prelude.Tests.{ltb, if◌then◌else◌}
use gobehost_operator.Prelude.Int.{ℤ, pos, negsuc}

unfoldable pub digit : ℕ → Char
digit d = char_at "0123456789abcdef" d

-- The decimal digits of `n` in front of `acc`; a number has fewer digits than its successor.
decimal : ℕ → ℕ → String → String
unfolding digit
decimal zero n acc = acc
decimal (suc f) n acc =
    let rest = decimal f (n / 10) (String.◌∷◌ (digit (n % 10)) acc) in
    if ltb n 10 then String.◌∷◌ (digit n) acc else rest

-- fmt.Sprintf("%d", n), strconv.Itoa
unfoldable pub itoa : ℤ → String
unfolding decimal
itoa (pos n) = decimal (suc n) n ""
itoa (negsuc n) = "-" ++ decimal (suc (suc n)) (suc n) ""

infixr 67 ◌▹◌
abbrev ◌▹◌ : Char → String → String
c ▹ s = String.◌∷◌ c s

-- fmt.Sprintf("%08x", n) of a number below 2 ^ 32
unfoldable pub hex8 : ℕ → String
unfolding digit
hex8 n =
    digit (n / 268435456 % 16)
    ▹ digit (n / 16777216 % 16)
    ▹ digit (n / 1048576 % 16)
    ▹ digit (n / 65536 % 16)
    ▹ digit (n / 4096 % 16)
    ▹ digit (n / 256 % 16)
    ▹ digit (n / 16 % 16)
    ▹ digit (n % 16)
    ▹ ""

itoa_tests : (itoa (pos 25565) ≡ "25565") × (itoa (negsuc 9) ≡ "-10") × (itoa (pos 0) ≡ "0")
unfolding itoa
itoa_tests = (refl, refl, refl)

hex8_tests : (hex8 2166136261 ≡ "811c9dc5") × (hex8 255 ≡ "000000ff")
unfolding hex8
hex8_tests = (refl, refl)
