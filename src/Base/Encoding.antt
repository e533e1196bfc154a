-- ===== src/Base/Encoding.antt =====
-- The round trip of the UTF-8 encoding.
use Prim.Native.Nat.{ℕ, zero, suc, ◌+◌, ◌/◌, ◌%◌, ◌≤◌, ◌<◌}
use mathlib.Core.Path.{◌≡◌, refl, ◌∙◌, ap}
use mathlib.Core.Logic.{◌⊎◌, inl, inr}
use mathlib.Core.Option
use mathlib.Core.Option.{Option, some}
use mathlib.Core.List.{List, [], ◌∷◌, ◌++◌}
use native.Mathlib.Omega.{arith}
use fs.Base.Tests.{ltb, Bool-cases, ltb→lt, lt→ltb}
use fs.Base.Texts.{Text}
use fs.Base.Utf8.{char_bytes, as_bytes, next_char, decode_utf8, from_utf8, count}

-- A Unicode scalar value: not a surrogate, and not past the last one.
abbrev pub IsScalar : ℕ → Type 0
IsScalar c = (c < 0xd800) ⊎ ((0xdfff < c) × (c < 0x110000))

one_byte : (c : ℕ) (s : List ℕ) → c < 0x80 → next_char (c ∷ s) ≡ some (c, s)
unfolding next_char
one_byte c [] h = rw (lt→ltb c 0x80 h) refl
one_byte c (x ∷ []) h = rw (lt→ltb c 0x80 h) refl
one_byte c (x ∷ y ∷ []) h = rw (lt→ltb c 0x80 h) refl
one_byte c (x ∷ y ∷ z ∷ s) h = rw (lt→ltb c 0x80 h) refl

two_bytes :
    (c : ℕ) (s : List ℕ)
    → 0x80 ≤ c
    → c < 0x800
    → next_char ((0xc0 + c / 64) ∷ (0x80 + c % 64) ∷ s) ≡ some (c, s)
unfolding next_char
two_bytes c [] h l = ground arith
two_bytes c (x ∷ []) h l = ground arith
two_bytes c (x ∷ y ∷ s) h l = ground arith

three_bytes :
    (c : ℕ) (s : List ℕ)
    → 0x800 ≤ c
    → c < 0x10000
    → IsScalar c
    → next_char ((0xe0 + c / 4096) ∷ (0x80 + c / 64 % 64) ∷ (0x80 + c % 64) ∷ s) ≡ some (c, s)
unfolding next_char
three_bytes c [] h l i = ground arith
three_bytes c (x ∷ s) h l i = ground arith

four_bytes :
    (c : ℕ) (s : List ℕ)
    → 0x10000 ≤ c
    → c < 0x110000
    → next_char
        ((0xf0 + c / 262144) ∷ (0x80 + c / 4096 % 64) ∷ (0x80 + c / 64 % 64) ∷ (0x80 + c % 64) ∷ s)
      ≡ some (c, s)
unfolding next_char
four_bytes c s h l = ground arith

next_char-char_bytes :
    (c : ℕ) (s : List ℕ) → IsScalar c → next_char (char_bytes c ++ s) ≡ some (c, s)
unfolding char_bytes
next_char-char_bytes c s i = elim (Bool-cases (ltb c 0x80)) [
  | inl q ↦ rw (char_bytes, q) (one_byte c s (ltb→lt c 0x80 q))
  | inr q ↦ elim (Bool-cases (ltb c 0x800)) [
    | inl r ↦ rw (char_bytes, q, r) (two_bytes c s (ground arith) (ltb→lt c 0x800 r))
    | inr r ↦ elim (Bool-cases (ltb c 0x10000)) [
      | inl t ↦ rw (char_bytes, q, r, t) (three_bytes c s (ground arith) (ltb→lt c 0x10000 t) i)
      | inr t ↦ rw (char_bytes, q, r, t) (four_bytes c s (ground arith) (ground arith))
    ]
  ]
]

count-char_bytes : (c : ℕ) (s : List ℕ) → suc (count s) ≤ count (char_bytes c ++ s)
unfolding char_bytes
count-char_bytes c s = ground arith

-- One round of the decoder.
decode_round :
    (fuel : ℕ) (bytes : List ℕ) (c : ℕ) (rest : List ℕ)
    → next_char bytes ≡ some (c, rest)
    → decode_utf8 (suc fuel) bytes ≡ Option.map (λ t. c ∷ t) (decode_utf8 fuel rest)
unfolding decode_utf8 next_char
decode_round fuel [] c rest e = cc
decode_round fuel (b ∷ bytes) c rest e = rw (decode_utf8, e) refl

-- Every character of the text is a scalar value, as in every `String`.
abbrev pub IsText : Text → Type 0
IsText [] = Unit
IsText (c ∷ s) = IsScalar c × IsText s

-- More fuel than bytes is enough too.
decode_utf8-as_bytes :
    (fuel : ℕ) (s : Text)
    → IsText s
    → count (as_bytes s) ≤ fuel
    → decode_utf8 fuel (as_bytes s) ≡ some s
unfolding decode_utf8 as_bytes
decode_utf8-as_bytes fuel [] i h = refl
decode_utf8-as_bytes zero (c ∷ s) (i, j) h = absurd (omega (arith, count-char_bytes c (as_bytes s)))
decode_utf8-as_bytes (suc fuel) (c ∷ s) (i, j) h =
    decode_round fuel (char_bytes c ++ as_bytes s) c (as_bytes s)
      (next_char-char_bytes c (as_bytes s) i)
    ∙ ap (Option.map (λ t. c ∷ t))
        (decode_utf8-as_bytes fuel s j (omega (arith, count-char_bytes c (as_bytes s))))

-- What `as_bytes` encodes, `from_utf8` decodes.
pub from_utf8-as_bytes : (s : Text) → IsText s → from_utf8 (as_bytes s) ≡ some s
unfolding from_utf8
from_utf8-as_bytes s i = decode_utf8-as_bytes (count (as_bytes s)) s i (omega arith)
