-- ===== src/Base/Decimal.antt =====
-- `format!("{}", n)`: decimal digits without leading zeros, and the numbers that are read from digits.
use Prim.Native.Nat.{ℕ, zero, suc, ◌+◌, ◌*◌, ◌-◌, ◌/◌, ◌%◌, ◌≤◌, ◌<◌}
use mathlib.Core.Path.{◌≡◌, refl, ap, ◌∙◌}
use mathlib.Core.Logic.{inl, inr}
use mathlib.Core.Bool.{Bool, true, false, ◌&&◌}
use mathlib.Core.Option.{Option, none, some}
use mathlib.Core.List.{[], ◌∷◌}
use native.Mathlib.Omega.{arith}
use fs.Base.Tests.{ltb, leb, eqb, if◌then◌else◌, Bool-cases}
use fs.Base.Lists.{length}
use fs.Base.Texts.{Text}
use fs.Base.Whitespace.{is_digit}

-- A round drops a digit, so that fuel `n` is enough.
unfoldable pub digits : ℕ → ℕ → Text → Text
digits zero n acc = acc
digits (suc fuel) n acc =
    let rest = digits fuel (n / 10) ((b'0' + n % 10) ∷ acc) in
    if ltb n 10 then (b'0' + n) ∷ acc else rest

unfoldable pub decimal : ℕ → Text
unfolding digits
decimal n = digits (suc n) n []

-- The number that digits spell behind `n`.
abbrev pub value_from : ℕ → Text → ℕ
value_from n [] = n
value_from n (c ∷ s) = value_from (n * 10 + (c - b'0')) s

abbrev pub all_digits : Text → Bool
all_digits [] = true
all_digits (c ∷ s) = is_digit c && all_digits s

-- `str::parse` of an unsigned type whose largest value is `most`: a `+` and one or more digits.
unfoldable pub parse_digits : ℕ → Text → Option ℕ
parse_digits most [] = none
parse_digits most (c ∷ s) =
    if all_digits (c ∷ s) && leb (value_from 0 (c ∷ s)) most
    then some (value_from 0 (c ∷ s))
    else none

unfoldable pub parse_unsigned : ℕ → Text → Option ℕ
unfolding parse_digits
parse_unsigned most [] = none
parse_unsigned most (c ∷ s) = if eqb c b'+' then parse_digits most s else parse_digits most (c ∷ s)

parse_digits-le : (most : ℕ) (s : Text) (n : ℕ) → parse_digits most s ≡ some n → n ≤ most
unfolding parse_digits
parse_digits-le most [] n h = cc
parse_digits-le most (c ∷ s) n h = ground arith

pub parse_unsigned-le : (most : ℕ) (s : Text) (n : ℕ) → parse_unsigned most s ≡ some n → n ≤ most
unfolding parse_unsigned
parse_unsigned-le most [] n h = cc
parse_unsigned-le most (c ∷ s) n h =
    ground (arith, parse_digits-le most s n, parse_digits-le most (c ∷ s) n)

value_from-digits :
    (fuel n : ℕ) (acc : Text) → n < fuel → value_from 0 (digits fuel n acc) ≡ value_from n acc
unfolding digits
value_from-digits zero n acc h = absurd (omega arith)
value_from-digits (suc fuel) n acc h = elim (Bool-cases (ltb n 10)) [
  | inl small ↦
      let last : 0 * 10 + (b'0' + n - b'0') ≡ n = omega arith in
      rw small (ap (λ k. value_from k acc) last)
  | inr large ↦
      let ten : 10 ≤ n = ground arith in
      let last : n / 10 * 10 + (b'0' + n % 10 - b'0') ≡ n = omega arith in
      rw large (
        value_from-digits fuel (n / 10) ((b'0' + n % 10) ∷ acc) (omega (arith, ten))
        ∙ ap (λ k. value_from k acc) last)
]

all_digits-digits :
    (fuel n : ℕ) (acc : Text)
    → n < fuel
    → all_digits acc ≡ true
    → all_digits (digits fuel n acc) ≡ true
unfolding digits
all_digits-digits zero n acc h a = absurd (omega arith)
all_digits-digits (suc fuel) n acc h a = elim (Bool-cases (ltb n 10)) [
  | inl small ↦ rw small (ground arith)
  | inr large ↦
      let ten : 10 ≤ n = ground arith in
      rw large (
        all_digits-digits fuel (n / 10) ((b'0' + n % 10) ∷ acc) (omega (arith, ten)) (ground arith))
]

-- What `decimal` writes is digits that spell the number.
pub value_from-decimal : (n : ℕ) → value_from 0 (decimal n) ≡ n
unfolding decimal
value_from-decimal n = value_from-digits (suc n) n [] (omega arith)

pub all_digits-decimal : (n : ℕ) → all_digits (decimal n) ≡ true
unfolding decimal
all_digits-decimal n = all_digits-digits (suc n) n [] (omega arith) refl

-- It is not empty: the digits are put before what stands behind them.
length-digits : (fuel n : ℕ) (acc : Text) → n < fuel → length acc < length (digits fuel n acc)
unfolding digits
length-digits zero n acc h = absurd (omega arith)
length-digits (suc fuel) n acc h = elim (Bool-cases (ltb n 10)) [
  | inl small ↦ rw small (omega arith)
  | inr large ↦
      let ten : 10 ≤ n = ground arith in
      rw large
        (omega (arith, length-digits fuel (n / 10) ((b'0' + n % 10) ∷ acc) (omega (arith, ten))))
]

pub length-decimal : (n : ℕ) → 0 < length (decimal n)
unfolding decimal
length-decimal n = length-digits (suc n) n [] (omega arith)

-- One or more digits are read as the number that they spell, where that fits.
parse_unsigned-digits :
    (most : ℕ) (s : Text)
    → 0 < length s
    → all_digits s ≡ true
    → parse_unsigned most s ≡ (if leb (value_from 0 s) most then some (value_from 0 s) else none)
unfolding parse_unsigned parse_digits
parse_unsigned-digits most [] l a = absurd (omega arith)
parse_unsigned-digits most (c ∷ s) l a =
    let head : eqb c b'+' ≡ false = digit-ne_plus c (ground arith) in rw (head, a) refl
  where
    digit-ne_plus : (d : ℕ) → is_digit d ≡ true → eqb d b'+' ≡ false
    digit-ne_plus d h = ground arith

pub parse_unsigned-decimal :
    (most n : ℕ) → parse_unsigned most (decimal n) ≡ (if leb n most then some n else none)
parse_unsigned-decimal most n =
    parse_unsigned-digits most (decimal n) (length-decimal n) (all_digits-decimal n)
    ∙ ap (λ k. if leb k most then some k else none) (value_from-decimal n)
