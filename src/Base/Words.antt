-- ===== src/Base/Words.antt =====
-- `u64::to_be_bytes` and `u64::from_be_bytes`, and sums that wrap around at 64 bits.
use fs.Base.{nat_eq}
use Prim.Native.Nat.{ℕ, ◌+◌, ◌*◌, ◌/◌, ◌%◌, ◌^◌, ◌<◌}
use mathlib.Core.Path.{◌≡◌, ap}
use mathlib.Core.Option.{Option, none, some}
use mathlib.Core.List.{List, [], ◌∷◌}
use native.Mathlib.Omega.{arith}

unfoldable pub to_be_bytes : ℕ → List ℕ
to_be_bytes n =
    (n / 2 ^ 56 % 256)
    ∷ (n / 2 ^ 48 % 256)
    ∷ (n / 2 ^ 40 % 256)
    ∷ (n / 2 ^ 32 % 256)
    ∷ (n / 2 ^ 24 % 256)
    ∷ (n / 2 ^ 16 % 256)
    ∷ (n / 2 ^ 8 % 256)
    ∷ (n % 256)
    ∷ []

-- `none` where the slice has not eight bytes.
unfoldable pub from_be_bytes : List ℕ → Option ℕ
from_be_bytes (a ∷ b ∷ c ∷ d ∷ e ∷ f ∷ g ∷ h ∷ []) =
    some
      (a * 2 ^ 56 + b * 2 ^ 48 + c * 2 ^ 40 + d * 2 ^ 32 + e * 2 ^ 24 + f * 2 ^ 16 + g * 2 ^ 8 + h)
from_be_bytes _ = none

pub from_be_bytes-to_be_bytes : (n : ℕ) → n < 2 ^ 64 → from_be_bytes (to_be_bytes n) ≡ some n
unfolding to_be_bytes from_be_bytes
from_be_bytes-to_be_bytes n h = ap some (omega arith)

pub to_be_bytes-injective :
    (n m : ℕ) → n < 2 ^ 64 → m < 2 ^ 64 → to_be_bytes n ≡ to_be_bytes m → n ≡ m
to_be_bytes-injective n m h k e =
    cc (from_be_bytes-to_be_bytes n h, ap from_be_bytes e, from_be_bytes-to_be_bytes m k)
