-- ===== src/Sh9/Arithmetic/Left.antt =====
-- Each part of a parser in sh9/src/eval/arithmetic.rs leaves less than it was given.
use fs.Base.{
  ℕ, suc, ◌≤◌, ◌<◌, Bool, ◌∷◌, [], Text, ◌≡◌, ◌≢◌, refl, arith, eqb, length, inl, inr, Option-cases,
}
use fs.Base.Whitespace.{length-trim_start, is_digit}
use fs.Base.Decimal.{parse_unsigned, parse_unsigned-le}
use fs.Sh9.Outcome.{
  Outcome, ◌>>=◌, Ensures, holds, failed, Ensures-bind, Ensures-if, Ensures-weaken,
}
use fs.Sh9.Int64.{
  IsI64, i64_max, div, rem, wrapping_add-IsI64, wrapping_sub-IsI64, wrapping_mul-IsI64,
  wrapping_neg-IsI64, div-IsI64, rem-IsI64, wrapping_add, wrapping_sub, wrapping_mul,
}
use fs.Sh9.Arithmetic.{
  Read, Peek, plus, minus, times, over, percent, open_paren, close_paren, digit, other, peek, tail,
  skip_whitespace, span, parse_number, expect_close, divide, additive_at, multiplicative_at,
  unary_at, primary_at,
}

-- The value fits and at most `n` characters are left.
abbrev pub Left : ℕ → ℕ × Text → Type 0
Left n r = IsI64 r.0 × (length r.1 ≤ n)

pub length-skip : (s : Text) → length (skip_whitespace s) ≤ length s
unfolding skip_whitespace
length-skip s = length-trim_start s

pub length-span : (test : ℕ → Bool) (s : Text) → length (span test s).1 ≤ length s
unfolding span
length-span test [] = omega arith
length-span test (c ∷ s) = ground (arith, length-span test s)

parse_number-Left : (s : Text) → Ensures (Left (length s)) (parse_number s)
unfolding parse_number
parse_number-Left s = elim (Option-cases (parse_unsigned i64_max (span is_digit s).0)) [
  | inl e ↦ rw (parse_number, e) failed
  | inr (n, e) ↦
      let small : n ≤ i64_max = parse_unsigned-le i64_max (span is_digit s).0 n e in
      rw (parse_number, e) (holds {a = (n, _)} (omega (arith, small), length-span is_digit s))
]

-- A character that some token begins with is there to be taken.
length-tail : (s : Text) → peek s ≢ other → suc (length (tail s)) ≡ length s
length-tail [] h = absurd (h refl)
length-tail (c ∷ s) h = omega arith

length-tail_le : (s : Text) → length (tail s) ≤ length s
length-tail_le [] = omega arith
length-tail_le (c ∷ s) = omega arith

expect_close-Left :
    (value : ℕ) (s : Text) (p : Peek)
    → IsI64 value
    → Ensures (Left (length s)) (expect_close value s p)
unfolding expect_close
expect_close-Left value s close_paren h = holds (h, length-tail_le s)
expect_close-Left value s _ h = failed

divide-Left :
    (op : ℕ → ℕ → Outcome ℕ) (left right : ℕ) (s : Text)
    → Ensures IsI64 (op left right)
    → Ensures (Left (length s)) (divide op left right s)
unfolding divide
divide-Left op left right s h =
    Ensures-if (eqb right 0) failed (Ensures-bind h λ v k. holds (k, omega arith))

pub Left-le : {n m : ℕ} {r : Read} → n ≤ m → Ensures (Left n) r → Ensures (Left m) r
Left-le h e = Ensures-weaken e λ r (v, l). (v, omega arith)

-- A parser that ends on every text of less than `n` characters.
abbrev pub EndsBelow : ℕ → (Text → Read) → Type 0
EndsBelow n p = (s : Text) → length s < n → Ensures (Left (length s)) (p s)

module _ {operand : Text → Read} (s : Text) (o : EndsBelow (length s) operand) where
  -- An operand behind a character, and what is done with it.
  after_token :
      (k : ℕ × Text → Read)
      → peek s ≢ other
      → ((r : ℕ × Text) → Left (length (tail s)) r → Ensures (Left (length r.1)) (k r))
      → Ensures (Left (length (tail s))) (operand (tail s) >>= k)
  after_token k p q =
      let shorter : suc (length (tail s)) ≡ length s = length-tail s p in
      Ensures-bind (o (tail s) (omega arith)) λ r (v, l). Left-le (omega (arith, l)) (q r (v, l))

  module _ {next : ℕ → Text → Read} (m : (left : ℕ) → IsI64 left → EndsBelow (length s) (next left))
      (left : ℕ) (w : IsI64 left) where
    go_on :
        (op : ℕ → ℕ → ℕ)
        → ((a b : ℕ) → IsI64 (op a b))
        → peek s ≢ other
        → Ensures (Left (length s)) (operand (tail s) >>= (λ r. next (op left r.0) r.1))
    go_on op i p =
        let shorter : suc (length (tail s)) ≡ length s = length-tail s p in
        Left-le (omega arith)
          (after_token _ p λ (v, rest) (k, l). m _ (i left v) rest (omega (arith, l)))

    pub additive_at-Left :
        (p : Peek) → p ≡ peek s → Ensures (Left (length s)) (additive_at operand next left s p)
    unfolding additive_at
    additive_at-Left plus e = go_on wrapping_add wrapping_add-IsI64 (λ o. cc)
    additive_at-Left minus e = go_on wrapping_sub wrapping_sub-IsI64 (λ o. cc)
    additive_at-Left _ e = holds (w, omega arith)

    divided :
        (op : ℕ → ℕ → Outcome ℕ)
        → ((a b : ℕ) → Ensures IsI64 (op a b))
        → peek s ≢ other
        → Ensures
            (Left (length s))
            (operand (tail s) >>= (λ r. divide op left r.0 r.1) >>= (λ r. next r.0 r.1))
    divided op i p =
        let shorter : suc (length (tail s)) ≡ length s = length-tail s p in
        Ensures-bind (after_token _ p λ (v, rest) l. divide-Left op left v rest (i left v))
          λ (v, rest) (k, l). Left-le (omega arith) (m v k rest (omega (arith, l)))

    pub multiplicative_at-Left :
        (p : Peek)
        → p ≡ peek s
        → Ensures (Left (length s)) (multiplicative_at operand next left s p)
    unfolding multiplicative_at
    multiplicative_at-Left times e = go_on wrapping_mul wrapping_mul-IsI64 (λ o. cc)
    multiplicative_at-Left over e = divided div div-IsI64 (λ o. cc)
    multiplicative_at-Left percent e = divided rem rem-IsI64 (λ o. cc)
    multiplicative_at-Left _ e = holds (w, omega arith)

  pub unary_at-Left :
      Ensures (Left (length s)) (operand s)
      → (p : Peek) → p ≡ peek s
      → Ensures (Left (length s)) (unary_at operand s p)
  unfolding unary_at
  unary_at-Left whole minus e =
      let shorter : suc (length (tail s)) ≡ length s = length-tail s (λ q. cc) in
      Left-le (omega arith)
        (after_token _ (λ q. cc) λ (v, rest) l. holds (wrapping_neg-IsI64 v, omega arith))
  unary_at-Left whole plus e =
      let shorter : suc (length (tail s)) ≡ length s = length-tail s (λ q. cc) in
      Left-le (omega arith) (o (tail s) (omega arith))
  unary_at-Left whole _ e = whole

  pub primary_at-Left : (p : Peek) → p ≡ peek s → Ensures (Left (length s)) (primary_at operand s p)
  unfolding primary_at
  primary_at-Left open_paren e =
      let shorter : suc (length (tail s)) ≡ length s = length-tail s (λ q. cc) in
      Left-le (omega arith) (
        after_token _ (λ q. cc)
          λ (v, rest) (k, l).
            Left-le (length-skip rest) (expect_close-Left v (skip_whitespace rest) _ k))
  primary_at-Left digit e = parse_number-Left s
  primary_at-Left _ e = holds (omega arith, omega arith)
