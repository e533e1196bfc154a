-- ===== src/Sh9/Arithmetic/Termination.antt =====
-- The evaluation in sh9/src/eval/arithmetic.rs ends: what it leaves is no longer than what it was given.
use fs.Base.{
  ℕ, zero, suc, ◌+◌, ◌*◌, ◌≤◌, ◌||◌, ◌∷◌, [], ◌++◌, Text, refl, arith, eqb, length, Bool-cases, inl,
  inr, is_empty, Option-cases,
}
use fs.Base.Whitespace.{trim}
use fs.Sh9.Outcome.{Ensures, holds, failed, Ensures-bind, Ensures-if}
use fs.Sh9.Int64.{IsI64}
use fs.Sh9.Variables.{Shell, ExecContext, World, get_variable_value, lookup_variable_value}
use fs.Sh9.Arithmetic.{
  peek, skip_whitespace, span, parse_arithmetic_expr, parse_additive, additive_loop,
  parse_multiplicative, multiplicative_loop, parse_unary, parse_primary, eval_arithmetic_expr,
  fuel_for, expand_loop, evaluate_arithmetic, expand_arithmetic_vars, is_word, or_zero,
}
use fs.Sh9.Arithmetic.Left.{
  Left, length-skip, length-span, Left-le, additive_at-Left, multiplicative_at-Left, unary_at-Left,
  primary_at-Left,
}

-- What every parser ensures with `f` units of fuel.
record Ends (f : ℕ) : Type 0 where
  expr : (s : Text) → 8 * length s + 5 ≤ f → Ensures (Left (length s)) (parse_arithmetic_expr f s)
  additive : (s : Text) → 8 * length s + 4 ≤ f → Ensures (Left (length s)) (parse_additive f s)
  sums :
      (left : ℕ)
      → IsI64 left
      → (s : Text) → 8 * length s + 1 ≤ f
      → Ensures (Left (length s)) (additive_loop f left s)
  multiplicative :
      (s : Text) → 8 * length s + 3 ≤ f → Ensures (Left (length s)) (parse_multiplicative f s)
  products :
      (left : ℕ)
      → IsI64 left
      → (s : Text) → 8 * length s + 1 ≤ f
      → Ensures (Left (length s)) (multiplicative_loop f left s)
  unary : (s : Text) → 8 * length s + 2 ≤ f → Ensures (Left (length s)) (parse_unary f s)
  primary : (s : Text) → 8 * length s + 1 ≤ f → Ensures (Left (length s)) (parse_primary f s)

no_fuel : Ends 0
no_fuel = record {
  expr = λ s h. absurd (omega arith);
  additive = λ s h. absurd (omega arith);
  sums = λ left w s h. absurd (omega arith);
  multiplicative = λ s h. absurd (omega arith);
  products = λ left w s h. absurd (omega arith);
  unary = λ s h. absurd (omega arith);
  primary = λ s h. absurd (omega arith);
}

-- After white space the next character decides, and there is less text behind it.
ends : (f : ℕ) → Ends f
unfolding parse_arithmetic_expr parse_additive additive_loop parse_multiplicative
    multiplicative_loop parse_unary parse_primary
ends zero = no_fuel
ends (suc f) =
    let e : Ends f = ends f in
    record {
      expr = λ s h. e.additive s (omega arith);
      additive = λ s h.
          Ensures-bind (e.multiplicative s (omega arith))
            λ (v, rest) (k, r). Left-le r (e.sums v k rest (omega (arith, r)));
      sums = λ left w s h. Left-le (length-skip s) (
          additive_at-Left (skip_whitespace s)
            (λ t l. e.multiplicative t (omega (arith, length-skip s)))
            (λ v k t l. e.sums v k t (omega (arith, length-skip s))) left w
            (peek (skip_whitespace s)) refl);
      multiplicative = λ s h.
          Ensures-bind (e.unary s (omega arith))
            λ (v, rest) (k, r). Left-le r (e.products v k rest (omega (arith, r)));
      products = λ left w s h. Left-le (length-skip s) (
          multiplicative_at-Left (skip_whitespace s)
            (λ t l. e.unary t (omega (arith, length-skip s)))
            (λ v k t l. e.products v k t (omega (arith, length-skip s))) left w
            (peek (skip_whitespace s)) refl);
      unary = λ s h. Left-le (length-skip s) (
          unary_at-Left (skip_whitespace s) (λ t l. e.primary t (omega (arith, length-skip s)))
            (e.primary (skip_whitespace s) (omega (arith, length-skip s)))
            (peek (skip_whitespace s)) refl);
      primary = λ s h. Left-le (length-skip s) (
          primary_at-Left (skip_whitespace s) (λ t l. e.expr t (omega (arith, length-skip s)))
            (peek (skip_whitespace s)) refl);
    }

-- With eight units of fuel for each character and five more, the expression at the start of any text
-- is evaluated: the value, if there is one, is an `i64`, and the rest is no longer than the text.
pub parse_arithmetic_expr-Left :
    (f : ℕ) (s : Text) → fuel_for s ≤ f → Ensures (Left (length s)) (parse_arithmetic_expr f s)
parse_arithmetic_expr-Left f s h = let e = ends f in e.expr s h

-- The evaluation of a text without variables ends, and a value that it gives is an `i64`.
pub eval_arithmetic_expr-IsI64 : (s : Text) → Ensures IsI64 (eval_arithmetic_expr s)
unfolding eval_arithmetic_expr
eval_arithmetic_expr-IsI64 s =
    Ensures-if (is_empty (trim s)) (holds (omega arith)) (
      Ensures-bind (parse_arithmetic_expr-Left _ (trim s) (omega arith))
        λ (v, rest) (k, l). holds k)

module _ (world : World) (shell : Shell) (ctx : ExecContext) where
  get_variable_value-ends :
      (name : Text) → Ensures (λ value. Unit {0}) (get_variable_value world shell ctx name)
  unfolding get_variable_value
  get_variable_value-ends name = elim (Option-cases (lookup_variable_value world shell ctx name)) [
    | inl e ↦ rw (get_variable_value, e) (Ensures-if shell.nounset failed (holds tt))
    | inr (value, e) ↦ rw (get_variable_value, e) (holds {a = value} tt)
  ]

  expand_loop-ends :
      (fuel : ℕ) (result s : Text)
      → length s ≤ fuel
      → Ensures (λ expanded. Unit {0}) (expand_loop world shell ctx fuel result s)
  unfolding expand_loop
  expand_loop-ends zero result [] h = holds tt
  expand_loop-ends zero result (c ∷ s) h = absurd (omega arith)
  expand_loop-ends (suc fuel) result [] h = holds tt
  expand_loop-ends (suc fuel) result (c ∷ s) h = elim (Bool-cases (eqb c b'$')) [
    | inl e ↦
        rw (expand_loop, e)
          (Ensures-bind (get_variable_value-ends _) λ value u.
            expand_loop-ends fuel (result ++ value) (span (is_word world shell ctx) s).1 shorter)
    | inr e ↦ elim (Bool-cases (world.is_alphabetic c || (eqb c b'_'))) [
      | inl a ↦
          rw (expand_loop, e, a)
            (Ensures-bind (get_variable_value-ends _) λ value u.
              expand_loop-ends fuel (result ++ or_zero world shell ctx value)
                (span (is_word world shell ctx) s).1 shorter)
      | inr a ↦ rw (expand_loop, e, a) (expand_loop-ends fuel (result ++ c ∷ []) s (omega arith))
    ]
  ]
    where
      shorter : length (span (is_word world shell ctx) s).1 ≤ fuel
      shorter = omega (arith, length-span (is_word world shell ctx) s)

  -- With any variables, the evaluation of any text ends, by a value in the range of `i64`, an error or
  -- an abort.
  pub evaluate_arithmetic-IsI64 :
      (expr : Text) → Ensures IsI64 (evaluate_arithmetic world shell ctx expr)
  unfolding evaluate_arithmetic expand_arithmetic_vars
  evaluate_arithmetic-IsI64 expr =
      Ensures-bind (expand_loop-ends (length (trim expr)) [] (trim expr) (omega arith))
        λ expanded h. eval_arithmetic_expr-IsI64 expanded
