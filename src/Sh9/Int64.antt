-- ===== src/Sh9/Int64.antt =====
-- `i64` as the number below 2 ^ 64 with the same bits. Sums, differences, products and negations wrap
-- around, as they do in a release build. A quotient or a remainder that overflows aborts in every build.
use fs.Base.{
  ℕ, ◌+◌, ◌-◌, ◌*◌, ◌/◌, ◌%◌, ◌^◌, ◌<◌, Bool, true, false, ◌≡◌, arith, ltb, eqb, if◌then◌else◌,
  Text, ◌∷◌, ◌&&◌,
}
use native.Mathlib.Nat.{mod-lt}
use fs.Base.Decimal.{decimal}
use fs.Sh9.Outcome.{Outcome, ok, panic, Ensures, holds, aborted}

-- `i64::MAX`
abbrev pub i64_max : ℕ
i64_max = 2 ^ 63 - 1

abbrev pub minus_one : ℕ
minus_one = 2 ^ 64 - 1

unfoldable pub wrapping_add : ℕ → ℕ → ℕ
wrapping_add a b = (a + b) % 2 ^ 64

unfoldable pub wrapping_neg : ℕ → ℕ
wrapping_neg a = (2 ^ 64 - a) % 2 ^ 64

unfoldable pub wrapping_sub : ℕ → ℕ → ℕ
wrapping_sub a b = (a + (2 ^ 64 - b)) % 2 ^ 64

unfoldable pub wrapping_mul : ℕ → ℕ → ℕ
wrapping_mul a b = (a * b) % 2 ^ 64

abbrev pub is_negative : ℕ → Bool
is_negative a = ltb i64_max a

abbrev pub unsigned_abs : ℕ → ℕ
unsigned_abs a = if is_negative a then 2 ^ 64 - a else a

-- `i64::MIN / -1` and `i64::MIN % -1`
abbrev div_overflows : ℕ → ℕ → Bool
div_overflows a b = (eqb a (2 ^ 63)) && (eqb b minus_one)

-- The quotient is rounded towards zero, for `b ≠ 0`.
unfoldable pub div : ℕ → ℕ → Outcome ℕ
unfolding wrapping_neg
div a b =
    let q = unsigned_abs a / unsigned_abs b in
    if div_overflows a b
    then panic
    else if is_negative a
    then ok (if is_negative b then q % 2 ^ 64 else wrapping_neg q)
    else ok (if is_negative b then wrapping_neg q else q % 2 ^ 64)

-- The remainder has the sign of `a`.
unfoldable pub rem : ℕ → ℕ → Outcome ℕ
unfolding wrapping_neg
rem a b =
    let r = unsigned_abs a % unsigned_abs b in
    if div_overflows a b then panic else ok (if is_negative a then wrapping_neg r else r % 2 ^ 64)

-- `to_string`
unfoldable pub to_string : ℕ → Text
unfolding decimal
to_string a = if is_negative a then b'-' ∷ decimal (2 ^ 64 - a) else decimal a

abbrev pub IsI64 : ℕ → Type 0
IsI64 a = a < 2 ^ 64

pub wrapping_add-IsI64 : (a b : ℕ) → IsI64 (wrapping_add a b)
unfolding wrapping_add
wrapping_add-IsI64 a b = omega arith

pub wrapping_neg-IsI64 : (a : ℕ) → IsI64 (wrapping_neg a)
unfolding wrapping_neg
wrapping_neg-IsI64 a = omega arith

pub wrapping_sub-IsI64 : (a b : ℕ) → IsI64 (wrapping_sub a b)
unfolding wrapping_sub
wrapping_sub-IsI64 a b = omega arith

pub wrapping_mul-IsI64 : (a b : ℕ) → IsI64 (wrapping_mul a b)
unfolding wrapping_mul
wrapping_mul-IsI64 a b = mod-lt (a * b) (omega arith)

pub div-IsI64 : (a b : ℕ) → Ensures IsI64 (div a b)
unfolding div
div-IsI64 a b = signs (div_overflows a b) (is_negative a) (is_negative b)
  where
    signs :
        (o n m : Bool)
        → Ensures IsI64 (
            if o
            then panic
            else if n
            then ok (
                if m
                then unsigned_abs a / unsigned_abs b % 2 ^ 64
                else wrapping_neg (unsigned_abs a / unsigned_abs b))
            else ok (
                if m
                then wrapping_neg (unsigned_abs a / unsigned_abs b)
                else unsigned_abs a / unsigned_abs b % 2 ^ 64))
    signs true n m = aborted
    signs false true true = holds (mod-lt _ (omega arith))
    signs false true false = holds (wrapping_neg-IsI64 _)
    signs false false true = holds (wrapping_neg-IsI64 _)
    signs false false false = holds (mod-lt _ (omega arith))

pub rem-IsI64 : (a b : ℕ) → Ensures IsI64 (rem a b)
unfolding rem
rem-IsI64 a b = signs (div_overflows a b) (is_negative a)
  where
    signs :
        (o n : Bool)
        → Ensures IsI64 (
            if o
            then panic
            else ok (
                if n
                then wrapping_neg (unsigned_abs a % unsigned_abs b)
                else unsigned_abs a % unsigned_abs b % 2 ^ 64))
    signs true n = aborted
    signs false true = holds (wrapping_neg-IsI64 _)
    signs false false = holds (mod-lt _ (omega arith))

-- A number and its negation sum up to zero.
pub wrapping_neg-add : (a : ℕ) → IsI64 a → wrapping_add (wrapping_neg a) a ≡ 0
unfolding wrapping_add wrapping_neg
wrapping_neg-add a h = omega arith
