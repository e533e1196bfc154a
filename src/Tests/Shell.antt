-- ===== src/Tests/Shell.antt =====
-- The arithmetic of sh9/src/eval/arithmetic.rs on a few texts.
use fs.Base.{◌∷◌, [], Text, chars, ◌≡◌, refl, arith, none, false, leb, ◌&&◌}
use fs.Base.Whitespace.{trim_start, trim_end}
use fs.Sh9.Outcome.{Ensures, ok, panic, ◌>>=◌}
use fs.Sh9.Int64.{IsI64, wrapping_add, wrapping_mul, wrapping_sub, wrapping_neg, div}
use fs.Sh9.Variables.{World, Shell, ExecContext}
use fs.Sh9.Arithmetic.{
  parse_arithmetic_expr, eval_arithmetic_expr, evaluate_arithmetic, fuel_for, skip_whitespace,
  parse_number, expect_close, divide, unary_at, primary_at, multiplicative_at, additive_at,
}
use fs.Sh9.Arithmetic.Grammar.{
  Sum, sum, no_sums, add, sub, Product, product, no_factors, multiply, plain, negative, number,
  parens, print_sum, value_sum, value_sums,
}
use fs.Sh9.Arithmetic.Tokens.{EndsSum}
use fs.Sh9.Arithmetic.Termination.{evaluate_arithmetic-IsI64}
use fs.Sh9.Arithmetic.Reading.{parse_arithmetic_expr-print}
use fs.Sh9.Arithmetic.Signs.{two_signs, two_signs_lem}

abbrev plain_world : World
plain_world = record {
  env_var = λ name. none;
  is_alphabetic = λ c. leb b'a' c && leb c b'z';
  is_numeric = λ c. leb b'0' c && leb c b'9';
}

abbrev shell : Shell
shell = record {
  cwd = chars "/";
  env = (chars "x", chars "-5") ∷ [];
  last_exit_code = 0;
  nounset = false;
}

abbrev no_locals : ExecContext
no_locals = record { locals = []; positional = [] }

evaluate_arithmetic-IsI64_example :
    Ensures IsI64 (evaluate_arithmetic plain_world shell no_locals (chars "3 - $x"))
evaluate_arithmetic-IsI64_example =
    evaluate_arithmetic-IsI64 plain_world shell no_locals (chars "3 - $x")

-- 1 + 2 * -(3 - 10)
abbrev sample : Sum
sample =
    sum (product (plain (number 1)) no_factors)
      (add (product (plain (number 2)) (multiply (negative (parens inner)) no_factors)) no_sums)
  where
    inner : Sum
    inner =
        sum (product (plain (number 3)) no_factors)
          (sub (product (plain (number 10)) no_factors) no_sums)

abbrev gap : Text
gap = b' ' ∷ []

nothing_follows : EndsSum []
unfolding skip_whitespace trim_start
nothing_follows = ((λ q. cc, λ q. cc, λ q. cc, λ q. cc), λ q. cc, λ q. cc)

parse_arithmetic_expr-print_example :
    parse_arithmetic_expr (fuel_for (print_sum gap sample [])) (print_sum gap sample [])
    ≡ value_sum sample >>= (λ a. ok (a, skip_whitespace []))
parse_arithmetic_expr-print_example =
    parse_arithmetic_expr-print gap (refl, tt) _ sample [] nothing_follows (omega arith)

value_sample : value_sum sample ≡ ok 15
unfolding value_sum wrapping_add wrapping_mul wrapping_sub wrapping_neg
value_sample = refl

abbrev seven : Product
seven = product (plain (number 7)) no_factors

two_signs_lem_example :
    parse_arithmetic_expr
      (fuel_for (two_signs gap (refl, tt) seven no_sums []))
      (two_signs gap (refl, tt) seven no_sums [])
    ≡ value_sums 0 (sub seven no_sums) >>= (λ a. ok (a, skip_whitespace []))
two_signs_lem_example =
    two_signs_lem gap (refl, tt) seven no_sums [] _ nothing_follows (omega arith)

-- The smallest value divided by -1 aborts.
smallest_by_minus_one : eval_arithmetic_expr (chars "(-9223372036854775807 - 1) / -1") ≡ panic
unfolding eval_arithmetic_expr trim_end trim_start skip_whitespace parse_number expect_close divide
    wrapping_neg wrapping_sub div unary_at primary_at multiplicative_at additive_at
smallest_by_minus_one = refl
