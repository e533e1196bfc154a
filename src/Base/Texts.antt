-- ===== src/Base/Texts.antt =====
-- `str` and `String`: lists of Unicode scalar values. Lengths and offsets in bytes go by `utf8_len`.
use Prim.Native.Nat.{ℕ, ◌+◌}
use Prim.Native.Char.{code}
use Prim.Native.String.{String}
use mathlib.Core.Path.{◌≡◌, refl}
use mathlib.Core.Bool.{Bool, true, false, ◌&&◌, ◌||◌}
use mathlib.Core.List.{List, [], ◌∷◌, ◌++◌}
use native.Mathlib.Omega.{arith}
use native.Mathlib.Decide.{ℕ_discrete}
use fs.Base.Tests.{Eq, eqb, if◌then◌else◌, ltb}
use fs.Base.Lists.{length, take}

abbrev pub Text : Type 0
Text = List ℕ

-- A string literal of the source.
abbrev pub chars : String → Text
chars String.[] = []
chars (String.◌∷◌ c s) = code c ∷ chars s

-- A text of several lines, with a newline after each.
abbrev pub lines : List Text → Text
lines [] = []
lines (s ∷ ss) = s ++ 10 ∷ lines ss

unfoldable pub text_dec : (s t : Text) → Dec (s ≡ t)
text_dec [] [] = yes refl
text_dec [] (y ∷ t) = no (λ p. cc)
text_dec (x ∷ s) [] = no (λ p. cc)
text_dec (x ∷ s) (y ∷ t) = elim (ℕ_discrete x y) [
  | yes p ↦ elim (text_dec s t) [ yes q ↦ yes (cc) | no q ↦ no (λ r. q (cc)) ]
  | no p ↦ no (λ r. p (cc))
]

instance abbrev pub text_eq : Eq Text
text_eq = record { dec = text_dec }

abbrev pub slash : ℕ
slash = b'/'

abbrev pub root : Text
root = slash ∷ []

abbrev pub is_empty : Text → Bool
is_empty [] = true
is_empty (c ∷ s) = false

unfoldable pub starts_with : Text → Text → Bool
starts_with s [] = true
starts_with [] (c ∷ p) = false
starts_with (d ∷ s) (c ∷ p) = (eqb d c) && starts_with s p

pub starts_with_append : (p s : Text) → starts_with (p ++ s) p ≡ true
unfolding starts_with
starts_with_append [] s = refl
starts_with_append (c ∷ p) s = ground (arith, starts_with_append p s)

pub take-starts_with : (s p : Text) → starts_with s p ≡ true → take (length p) s ≡ p
unfolding starts_with
take-starts_with s [] h = refl
take-starts_with [] (c ∷ p) h = cc
take-starts_with (d ∷ s) (c ∷ p) h = ground (arith, take-starts_with s p)

-- What follows a prefix of the length of `p`: `&s[p.len()..]` where `s` starts with `p`.
unfoldable pub strip : Text → Text → Text
strip s [] = s
strip [] (c ∷ p) = []
strip (d ∷ s) (c ∷ p) = strip s p

unfoldable pub ends_with : Text → ℕ → Bool
ends_with [] c = false
ends_with (d ∷ []) c = eqb d c
ends_with (d ∷ d' ∷ s) c = ends_with (d' ∷ s) c

unfoldable pub contains : Text → ℕ → Bool
contains [] c = false
contains (d ∷ s) c = (eqb d c) || contains s c

-- `trim_end_matches(c)`
unfoldable pub trim_end_matches : Text → ℕ → Text
trim_end_matches [] c = []
trim_end_matches (d ∷ s) c =
    let rest = trim_end_matches s c in if is_empty rest && (eqb d c) then [] else d ∷ rest

-- The bytes of one scalar value in UTF-8, and of a text: `str::len`.
abbrev utf8_width : ℕ → ℕ
utf8_width c = if ltb c 0x80 then 1 else if ltb c 0x800 then 2 else if ltb c 0x10000 then 3 else 4

unfoldable pub utf8_len : Text → ℕ
utf8_len [] = 0
utf8_len (c ∷ s) = utf8_width c + utf8_len s
