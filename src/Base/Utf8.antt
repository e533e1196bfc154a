-- ===== src/Base/Utf8.antt =====
-- `str::as_bytes` and `String::from_utf8`: the UTF-8 encoding of a text.
use fs.Base.{nat_eq}
use Prim.Native.Nat.{ℕ, zero, suc, ◌+◌, ◌-◌, ◌*◌, ◌/◌, ◌%◌}
use mathlib.Core.Bool.{Bool, ◌&&◌}
use mathlib.Core.Option
use mathlib.Core.Option.{Option, none, some}
use mathlib.Core.List.{List, [], ◌∷◌, ◌++◌}
use fs.Base.Tests.{ltb, leb, if◌then◌else◌}
use fs.Base.Texts.{Text}

unfoldable pub char_bytes : ℕ → List ℕ
char_bytes c =
    if ltb c 0x80
    then c ∷ []
    else if ltb c 0x800
    then (0xc0 + c / 64) ∷ (0x80 + c % 64) ∷ []
    else if ltb c 0x10000
    then (0xe0 + c / 4096) ∷ (0x80 + c / 64 % 64) ∷ (0x80 + c % 64) ∷ []
    else (0xf0 + c / 262144) ∷ (0x80 + c / 4096 % 64) ∷ (0x80 + c / 64 % 64) ∷ (0x80 + c % 64) ∷ []

unfoldable pub as_bytes : Text → List ℕ
unfolding char_bytes
as_bytes [] = []
as_bytes (c ∷ s) = char_bytes c ++ as_bytes s

abbrev between : ℕ → ℕ → ℕ → Bool
between lo hi b = leb lo b && leb b hi

abbrev continues : ℕ → Bool
continues = between 0x80 0xbf

-- One scalar value from the front, with what follows. Overlong forms, surrogates and values past
-- 0x10ffff are refused.
unfoldable pub next_char : List ℕ → Option (ℕ × List ℕ)
next_char [] = none
next_char (a ∷ []) = if ltb a 0x80 then some (a, []) else none
next_char (a ∷ b ∷ []) =
    if ltb a 0x80
    then some (a, b ∷ [])
    else if between 0xc2 0xdf a && continues b
    then some ((a - 0xc0) * 64 + (b - 0x80), [])
    else none
next_char (a ∷ b ∷ c ∷ []) =
    if ltb a 0x80
    then some (a, b ∷ c ∷ [])
    else if between 0xc2 0xdf a && continues b
    then some ((a - 0xc0) * 64 + (b - 0x80), c ∷ [])
    else if between 0xe0 0xef a
        && between (if ltb 0xe0 a then 0x80 else 0xa0)
            (if ltb a 0xed then 0xbf else if ltb 0xed a then 0xbf else 0x9f) b
        && continues c
    then some ((a - 0xe0) * 4096 + (b - 0x80) * 64 + (c - 0x80), [])
    else none
next_char (a ∷ b ∷ c ∷ d ∷ s) =
    if ltb a 0x80
    then some (a, b ∷ c ∷ d ∷ s)
    else if between 0xc2 0xdf a && continues b
    then some ((a - 0xc0) * 64 + (b - 0x80), c ∷ d ∷ s)
    else if between 0xe0 0xef a
        && between (if ltb 0xe0 a then 0x80 else 0xa0)
            (if ltb a 0xed then 0xbf else if ltb 0xed a then 0xbf else 0x9f) b
        && continues c
    then some ((a - 0xe0) * 4096 + (b - 0x80) * 64 + (c - 0x80), d ∷ s)
    else if between 0xf0 0xf4 a
        && between (if ltb 0xf0 a then 0x80 else 0x90) (if ltb a 0xf4 then 0xbf else 0x8f) b
        && continues c
        && continues d
    then some ((a - 0xf0) * 262144 + (b - 0x80) * 4096 + (c - 0x80) * 64 + (d - 0x80), s)
    else none

-- A round takes a byte at least, so that the number of bytes is enough fuel.
unfoldable pub decode_utf8 : ℕ → List ℕ → Option Text
decode_utf8 fuel [] = some []
decode_utf8 zero (b ∷ s) = none
decode_utf8 (suc fuel) (b ∷ s) = elim (next_char (b ∷ s)) [
  | none ↦ none
  | some (c, rest) ↦ Option.map (λ t. c ∷ t) (decode_utf8 fuel rest)
]

abbrev pub count : List ℕ → ℕ
count [] = 0
count (b ∷ s) = suc (count s)

unfoldable pub from_utf8 : List ℕ → Option Text
unfolding decode_utf8 next_char
from_utf8 s = decode_utf8 (count s) s
