-- ===== src/Base/Hex.antt =====
-- `format!("{:x}", n)`: lower-case hexadecimal digits without leading zeros.
use fs.Base.{nat_eq, text_eq}
use Prim.Native.Nat.{ℕ, zero, suc, ◌+◌, ◌-◌, ◌/◌, ◌%◌}
use mathlib.Core.List.{[], ◌∷◌}
use fs.Base.Tests.{ltb, if◌then◌else◌}
use fs.Base.Texts.{Text}

unfoldable pub hex_digit : ℕ → ℕ
hex_digit d = if ltb d 10 then b'0' + d else b'a' + (d - 10)

-- A round drops a digit, so that fuel `n` is enough.
unfoldable pub hex_digits : ℕ → ℕ → Text → Text
hex_digits zero n acc = acc
hex_digits (suc fuel) n acc =
    let rest = hex_digits fuel (n / 16) (hex_digit (n % 16) ∷ acc) in
    if ltb n 16 then hex_digit n ∷ acc else rest

unfoldable pub hex : ℕ → Text
unfolding hex_digits hex_digit
hex n = hex_digits (suc n) n []
