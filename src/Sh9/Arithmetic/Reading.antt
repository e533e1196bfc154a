-- ===== src/Sh9/Arithmetic/Reading.antt =====
-- The text of an expression evaluates to its value: sh9/src/eval/arithmetic.rs against the grammar.
use fs.Base.{ℕ, zero, suc, ◌+◌, ◌*◌, ◌≤◌, ◌∷◌, ◌++◌, Text, ◌≡◌, refl, ◌∙◌, arith, length}
use fs.Base.Whitespace.{IsBlank}
use fs.Base.Decimal.{decimal, all_digits-decimal, length-decimal}
use fs.Sh9.Outcome.{ok, ◌>>=◌}
use fs.Sh9.Int64.{wrapping_add, wrapping_sub, wrapping_mul, wrapping_neg, div, rem}
use fs.Sh9.Arithmetic.Grammar.{
  Sum, sum, Sums, no_sums, add, sub, Product, product, Factors, no_factors, multiply, divide,
  modulo, Signed, plain, negative, positive, Primary, number, parens, print_sum, print_sums,
  print_product, print_factors, print_signed, print_primary, value_sum, value_sums, value_product,
  value_factors, value_signed, value_primary,
}
use fs.Sh9.Arithmetic.Tokens.{
  chain_same, parse_number-decimal, peek-decimal, leaves, chain, EndsNumber, EndsProduct, EndsSum,
  skip, EndsProduct-sums, EndsNumber-factors, EndsSum-close,
}
use fs.Sh9.Arithmetic.{
  skip_whitespace, parse_arithmetic_expr, parse_additive, additive_loop, additive_at,
  multiplicative_at, unary_at, primary_at, parse_multiplicative, multiplicative_loop, parse_unary,
  parse_primary, fuel_for,
}
use fs.Sh9.Arithmetic.Steps.{
  sums-skip, additive_at-ends, multiplicative_at-ends, primary-skip, unary_at-plain, divided,
  skip_blank, room, room_behind, peek-primary, close, length-product, length-signed,
}

module _ (w : Text) (blank : IsBlank w) where
  mutual
    unfolding print_sum print_sums print_product print_factors print_signed print_primary value_sum
        parse_arithmetic_expr unary_at primary_at additive_at multiplicative_at

    reads_primary :
        (f : ℕ) (p : Primary) (rest : Text)
        → EndsNumber rest
        → 8 * length (print_primary w p rest) + 1 ≤ f
        → parse_primary f (print_primary w p rest) ≡ leaves rest (value_primary p)
    reads_primary zero p rest e h = absurd (omega arith)
    reads_primary (suc f) (number n) rest e h =
        let (d, same) = peek-decimal (decimal n) rest (length-decimal n) (all_digits-decimal n) in
        let gap : skip_whitespace (w ++ (decimal n ++ rest)) ≡ decimal n ++ rest =
          skip_blank w blank _ ∙ same in
        rw (gap, d) (parse_number-decimal n rest e)
    reads_primary (suc f) (parens s) rest e h =
        let t = print_sum w s (w ++ b')' ∷ rest) in
        let inner =
          reads_expr f s (w ++ b')' ∷ rest) (EndsSum-close w blank rest)
            (omega (arith, room w blank b'(' t f h)) in
        rw (skip w blank b'(' t refl, inner)
          (chain_same _ rest (value_sum s) _ λ a. close w blank a rest)

    reads_expr :
        (f : ℕ) (s : Sum) (rest : Text)
        → EndsSum rest
        → 8 * length (print_sum w s rest) + 5 ≤ f
        → parse_arithmetic_expr f (print_sum w s rest) ≡ leaves (skip_whitespace rest) (value_sum s)
    reads_expr zero s rest e h = absurd (omega arith)
    reads_expr (suc f) s rest e h = reads_sum f s rest e (omega arith)

    reads_sum :
        (f : ℕ) (s : Sum) (rest : Text)
        → EndsSum rest
        → 8 * length (print_sum w s rest) + 4 ≤ f
        → parse_additive f (print_sum w s rest) ≡ leaves (skip_whitespace rest) (value_sum s)
    reads_sum zero s rest e h = absurd (omega arith)
    reads_sum (suc f) (sum p ss) rest e h =
        let t = print_sums w ss rest in
        let first = reads_product f p t (EndsProduct-sums w blank ss rest e) (omega arith) in
        rw first (
          chain _ _ (value_product p) _ (λ a. value_sums a ss)
            λ a.
              sums-skip f a t
              ∙ reads_sums f a ss rest e (omega (arith, length-product w blank p t)))

    reads_product :
        (f : ℕ) (p : Product) (rest : Text)
        → EndsProduct rest
        → 8 * length (print_product w p rest) + 3 ≤ f
        → parse_multiplicative f (print_product w p rest)
          ≡ leaves (skip_whitespace rest) (value_product p)
    reads_product zero p rest e h = absurd (omega arith)
    reads_product (suc f) (product u fs) rest e h =
        let t = print_factors w fs rest in
        let first = reads_signed f u t (EndsNumber-factors w blank fs rest e.0) (omega arith) in
        rw first (
          chain _ _ (value_signed u) _ (λ a. value_factors a fs)
            λ a. reads_factors f a fs rest e (omega (arith, length-signed w blank u t)))

    pub reads_sums :
        (f a : ℕ) (ss : Sums) (rest : Text)
        → EndsSum rest
        → 8 * length (print_sums w ss rest) + 1 ≤ f
        → additive_loop f a (print_sums w ss rest) ≡ leaves (skip_whitespace rest) (value_sums a ss)
    reads_sums zero a ss rest e h = absurd (omega arith)
    reads_sums (suc f) a no_sums rest (e, p, m) h =
        additive_at-ends (parse_multiplicative f) (additive_loop f) a _ _ p m
    reads_sums (suc f) a (add p ss) rest e h =
        let t = print_product w p (print_sums w ss rest) in
        let first =
          reads_product f p (print_sums w ss rest) (EndsProduct-sums w blank ss rest e)
            (omega (arith, room w blank b'+' t f h)) in
        rw (skip w blank b'+' t refl, first)
          (chain _ _ (value_product p) _ (λ b. value_sums (wrapping_add a b) ss)
            λ b.
              sums-skip f _ (print_sums w ss rest)
              ∙ reads_sums f (wrapping_add a b) ss rest e
                  (room_behind w blank b'+' t _ f h (length-product w blank p _)))
    reads_sums (suc f) a (sub p ss) rest e h =
        let t = print_product w p (print_sums w ss rest) in
        let first =
          reads_product f p (print_sums w ss rest) (EndsProduct-sums w blank ss rest e)
            (omega (arith, room w blank b'-' t f h)) in
        rw (skip w blank b'-' t refl, first)
          (chain _ _ (value_product p) _ (λ b. value_sums (wrapping_sub a b) ss)
            λ b.
              sums-skip f _ (print_sums w ss rest)
              ∙ reads_sums f (wrapping_sub a b) ss rest e
                  (room_behind w blank b'-' t _ f h (length-product w blank p _)))

    reads_factors :
        (f a : ℕ) (fs : Factors) (rest : Text)
        → EndsProduct rest
        → 8 * length (print_factors w fs rest) + 1 ≤ f
        → multiplicative_loop f a (print_factors w fs rest)
          ≡ leaves (skip_whitespace rest) (value_factors a fs)
    reads_factors zero a fs rest e h = absurd (omega arith)
    reads_factors (suc f) a no_factors rest (e, t, o, p) h =
        multiplicative_at-ends (parse_unary f) (multiplicative_loop f) a _ _ t o p
    reads_factors (suc f) a (multiply u fs) rest e h =
        let more = print_factors w fs rest in
        let t = print_signed w u more in
        let first =
          reads_signed f u more (EndsNumber-factors w blank fs rest e.0)
            (omega (arith, room w blank b'*' t f h)) in
        rw (skip w blank b'*' t refl, first)
          (chain _ _ (value_signed u) _ (λ b. value_factors (wrapping_mul a b) fs)
            λ b.
              reads_factors f (wrapping_mul a b) fs rest e
                (room_behind w blank b'*' t more f h (length-signed w blank u more)))
    reads_factors (suc f) a (divide u fs) rest e h =
        let more = print_factors w fs rest in
        let t = print_signed w u more in
        let first =
          reads_signed f u more (EndsNumber-factors w blank fs rest e.0)
            (omega (arith, room w blank b'/' t f h)) in
        rw (skip w blank b'/' t refl, first)
          (divided div a u more _ _ (λ c. value_factors c fs)
            λ c.
              reads_factors f c fs rest e
                (room_behind w blank b'/' t more f h (length-signed w blank u more)))
    reads_factors (suc f) a (modulo u fs) rest e h =
        let more = print_factors w fs rest in
        let t = print_signed w u more in
        let first =
          reads_signed f u more (EndsNumber-factors w blank fs rest e.0)
            (omega (arith, room w blank b'%' t f h)) in
        rw (skip w blank b'%' t refl, first)
          (divided rem a u more _ _ (λ c. value_factors c fs)
            λ c.
              reads_factors f c fs rest e
                (room_behind w blank b'%' t more f h (length-signed w blank u more)))

    reads_signed :
        (f : ℕ) (u : Signed) (rest : Text)
        → EndsNumber rest
        → 8 * length (print_signed w u rest) + 2 ≤ f
        → parse_unary f (print_signed w u rest) ≡ leaves rest (value_signed u)
    reads_signed zero u rest e h = absurd (omega arith)
    reads_signed (suc f) (plain p) rest e h =
        let (m, s) = peek-primary w blank p rest in
        unary_at-plain (parse_primary f) _ _ m s
        ∙ primary-skip f (print_primary w p rest)
        ∙ reads_primary f p rest e (omega arith)
    reads_signed (suc f) (negative p) rest e h =
        let t = print_primary w p rest in
        let first = reads_primary f p rest e (omega (arith, room w blank b'-' t f (omega arith))) in
        rw (skip w blank b'-' t refl, first)
          (chain _ rest (value_primary p) _ (λ a. ok (wrapping_neg a)) λ a. refl)
    reads_signed (suc f) (positive p) rest e h =
        let t = print_primary w p rest in
        let first = reads_primary f p rest e (omega (arith, room w blank b'+' t f (omega arith))) in
        rw (skip w blank b'+' t refl, first) refl

  -- With eight units of fuel for each character and five more, the text of an expression with white
  -- space before its tokens is evaluated to the value of the expression, an error included, and what
  -- stands behind it is left, where that goes on neither with a digit nor, after white space, with an
  -- operator other than a parenthesis.
  pub parse_arithmetic_expr-print :
      (f : ℕ) (e : Sum) (rest : Text)
      → EndsSum rest
      → fuel_for (print_sum w e rest) ≤ f
      → parse_arithmetic_expr f (print_sum w e rest)
        ≡ value_sum e >>= (λ a. ok (a, skip_whitespace rest))
  parse_arithmetic_expr-print f e rest = reads_expr f e rest
