-- ===== src/Base/Whitespace.antt =====
-- `char::is_whitespace`, the property White_Space of Unicode.
use mathlib.Core.Path.{◌≡◌, refl}
use mathlib.Core.Bool.{Bool, true, ◌&&◌, ◌||◌}
use mathlib.Core.List.{[], ◌∷◌, ◌++◌}
use Prim.Native.Nat.{ℕ, ◌≤◌}
use native.Mathlib.Omega.{arith}
use fs.Base.Tests.{leb, eqb, if◌then◌else◌}
use fs.Base.Lists.{length}
use fs.Base.Texts.{Text, is_empty}

abbrev between : ℕ → ℕ → ℕ → Bool
between low high c = leb low c && leb c high

abbrev pub is_whitespace : ℕ → Bool
is_whitespace c =
    between 9 13 c
    || (eqb c 32)
    || (eqb c 0x85)
    || (eqb c 0xA0)
    || (eqb c 0x1680)
    || between 0x2000 0x200A c
    || between 0x2028 0x2029 c
    || (eqb c 0x202F)
    || (eqb c 0x205F)
    || (eqb c 0x3000)

-- `char::is_ascii_digit`
abbrev pub is_digit : ℕ → Bool
is_digit c = between b'0' b'9' c

unfoldable pub trim_start : Text → Text
trim_start [] = []
trim_start (c ∷ s) = let rest = trim_start s in if is_whitespace c then rest else c ∷ s

unfoldable pub trim_end : Text → Text
trim_end [] = []
trim_end (c ∷ s) =
    let rest = trim_end s in if is_empty rest && is_whitespace c then [] else c ∷ rest

-- `str::trim`
unfoldable pub trim : Text → Text
unfolding trim_start trim_end
trim s = trim_end (trim_start s)

pub length-trim_start : (s : Text) → length (trim_start s) ≤ length s
unfolding trim_start
length-trim_start [] = omega arith
length-trim_start (c ∷ s) = ground (arith, length-trim_start s)

-- A list of characters of whitespace.
abbrev pub IsBlank : Text → Type 0
IsBlank [] = Unit
IsBlank (c ∷ s) = (is_whitespace c ≡ true) × IsBlank s

pub trim_start-blank : (w s : Text) → IsBlank w → trim_start (w ++ s) ≡ trim_start s
unfolding trim_start
trim_start-blank [] s h = refl
trim_start-blank (c ∷ w) s (h, k) = rw h (trim_start-blank w s k)

pub trim_start-twice : (s : Text) → trim_start (trim_start s) ≡ trim_start s
unfolding trim_start
trim_start-twice [] = refl
trim_start-twice (c ∷ s) = ground (arith, trim_start-twice s)
