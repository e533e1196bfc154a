-- ===== src/Sh9/Arithmetic/Signs.antt =====
-- Two signs in a row, in sh9/src/eval/arithmetic.rs.
use mathlib.Core.Path.{subst}
use fs.Base.{ℕ, suc, ◌-◌, ◌≤◌, ◌∷◌, ◌++◌, Text, ◌≡◌, refl, sym, ap, ◌∙◌, arith}
use fs.Base.Whitespace.{IsBlank, trim_start}
use fs.Sh9.Outcome.{ok, ◌>>=◌}
use fs.Sh9.Int64.{wrapping_neg}
use fs.Sh9.Arithmetic.{
  skip_whitespace, parse_arithmetic_expr, fuel_for, primary_at, unary_at, additive_loop,
  multiplicative_at,
}
use fs.Sh9.Arithmetic.Grammar.{Product, Sums, sub, print_product, print_sums, value_sums}
use fs.Sh9.Arithmetic.Tokens.{EndsSum, skip}
use fs.Sh9.Arithmetic.Steps.{sums-skip}
use fs.Sh9.Arithmetic.Reading.{reads_sums}

module _ (w : Text) (blank : IsBlank w) (p : Product) (ss : Sums) (rest : Text) where
  abbrev pub two_signs : Text
  two_signs = b'-' ∷ print_sums w (sub p ss) rest

  no_operand :
      (f : ℕ)
      → parse_arithmetic_expr (suc (suc (suc (suc (suc f))))) two_signs
        ≡ additive_loop (suc (suc (suc f))) 0 (b'-' ∷ print_product w p (print_sums w ss rest))
  unfolding parse_arithmetic_expr print_sums skip_whitespace trim_start primary_at unary_at
      multiplicative_at wrapping_neg
  no_operand f = rw (skip w blank b'-' (print_product w p (print_sums w ss rest)) refl) refl

  -- The text of two signs `-`, a product and further terms of a sum, with white space before the
  -- tokens behind the first sign, with fuel for its characters: the first sign negates nothing, so
  -- that the value is 0 less the product, and then the further terms are added or subtracted,
  -- where behind them stands neither a digit nor, after white space, an operator other than a
  -- parenthesis.
  pub two_signs_lem :
      (f : ℕ)
      → EndsSum rest
      → fuel_for two_signs ≤ f
      → parse_arithmetic_expr f two_signs
        ≡ value_sums 0 (sub p ss) >>= (λ a. ok (a, skip_whitespace rest))
  unfolding print_sums
  two_signs_lem f e h =
      let rounds : f ≡ suc (suc (suc (suc (suc (f - 5))))) = omega arith in
      let t = print_product w p (print_sums w ss rest) in
      subst
        (λ n.
          parse_arithmetic_expr n two_signs
          ≡ value_sums 0 (sub p ss) >>= (λ a. ok (a, skip_whitespace rest)))
        (sym rounds)
        (no_operand (f - 5)
          ∙ ap (λ s. additive_loop (suc (suc (suc (f - 5)))) 0 s) (sym (skip w blank b'-' t refl))
          ∙ sums-skip (suc (suc (suc (f - 5)))) 0 (w ++ b'-' ∷ t)
          ∙ reads_sums w blank (suc (suc (suc (f - 5)))) 0 (sub p ss) rest e (omega arith))
