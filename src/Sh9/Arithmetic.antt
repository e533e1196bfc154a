-- ===== src/Sh9/Arithmetic.antt =====
-- sh9/src/eval/arithmetic.rs: `$((...))`. Variables are replaced first, then the text is evaluated while
-- it is parsed. A parser takes the characters that are left and returns its value with the rest; a
-- call costs a unit of fuel.
pub mod Left
pub mod Termination
pub mod Grammar
pub mod Tokens
pub mod Steps
pub mod Reading
pub mod Signs
use fs.Base.{
  ℕ, zero, suc, ◌+◌, ◌*◌, Bool, true, false, ◌||◌, none, some, ◌∷◌, [], ◌++◌, Text, chars, eqb,
  if◌then◌else◌, length, is_empty,
}
use fs.Base.Whitespace.{is_digit, trim_start, trim}
use fs.Base.Decimal.{parse_unsigned}
use fs.Sh9.Outcome.{Outcome, ok, err, out_of_fuel, runtime, ◌>>=◌}
use fs.Sh9.Int64.{i64_max, wrapping_add, wrapping_sub, wrapping_mul, wrapping_neg, div, rem}
use fs.Sh9.Variables.{Shell, ExecContext, World, get_variable_value}

-- The value that was read, and the characters behind it.
abbrev pub Read : Type 0
Read = Outcome (ℕ × Text)

-- What the parsers tell apart in `chars.peek()`.
pub data Peek : Type 0 where
  plus minus times over percent open_paren close_paren digit other : Peek

abbrev pub kind : ℕ → Peek
kind c =
    if eqb c b'+'
    then plus
    else if eqb c b'-'
    then minus
    else if eqb c b'*'
    then times
    else if eqb c b'/'
    then over
    else if eqb c b'%'
    then percent
    else if eqb c b'('
    then open_paren
    else if eqb c b')'
    then close_paren
    else if is_digit c
    then digit
    else other

abbrev pub peek : Text → Peek
peek [] = other
peek (c ∷ s) = kind c

-- `chars.next()`
abbrev pub tail : Text → Text
tail [] = []
tail (c ∷ s) = s

unfoldable pub skip_whitespace : Text → Text
unfolding trim_start
skip_whitespace s = trim_start s

-- The characters while they satisfy a test, and the rest.
unfoldable pub span : (ℕ → Bool) → Text → Text × Text
span test [] = ([], [])
span test (c ∷ s) = let rest = span test s in if test c then (c ∷ rest.0, rest.1) else ([], c ∷ s)

abbrev pub division_by_zero : Read
division_by_zero = err (runtime (chars "Division by zero"))

unfoldable pub parse_number : Text → Read
unfolding span parse_unsigned
parse_number s =
    let (num, rest) = span is_digit s in
    elim (parse_unsigned i64_max num) [
      | some n ↦ ok (n, rest)
      | none ↦ err (runtime (chars "Invalid number: " ++ num))
    ]

unfoldable pub expect_close : ℕ → Text → Peek → Read
expect_close value s close_paren = ok (value, tail s)
expect_close value s _ = err (runtime (chars "Expected ')'"))

-- `/=` and `%=`, behind the test for zero.
unfoldable pub divide : (ℕ → ℕ → Outcome ℕ) → ℕ → ℕ → Text → Read
divide op left right rest =
    if eqb right 0 then division_by_zero else op left right >>= (λ value. ok (value, rest))

-- The functions that end in `_at` are the branches on `chars.peek()`. They take the parser of an
-- operand and, for a loop, its next round.
unfoldable pub additive_at : (Text → Read) → (ℕ → Text → Read) → ℕ → Text → Peek → Read
additive_at operand next left s plus = operand (tail s) >>= (λ r. next (wrapping_add left r.0) r.1)
additive_at operand next left s minus = operand (tail s) >>= (λ r. next (wrapping_sub left r.0) r.1)
additive_at operand next left s _ = ok (left, s)

unfoldable pub multiplicative_at : (Text → Read) → (ℕ → Text → Read) → ℕ → Text → Peek → Read
multiplicative_at operand next left s times =
    operand (tail s) >>= (λ r. next (wrapping_mul left r.0) r.1)
multiplicative_at operand next left s over =
    operand (tail s) >>= (λ r. divide div left r.0 r.1) >>= (λ r. next r.0 r.1)
multiplicative_at operand next left s percent =
    operand (tail s) >>= (λ r. divide rem left r.0 r.1) >>= (λ r. next r.0 r.1)
multiplicative_at operand next left s _ = ok (left, s)

unfoldable pub unary_at : (Text → Read) → Text → Peek → Read
unary_at operand s minus = operand (tail s) >>= (λ r. ok (wrapping_neg r.0, r.1))
unary_at operand s plus = operand (tail s)
unary_at operand s _ = operand s

unfoldable pub primary_at : (Text → Read) → Text → Peek → Read
primary_at inner s open_paren =
    inner (tail s) >>= (λ r. expect_close r.0 (skip_whitespace r.1) (peek (skip_whitespace r.1)))
primary_at inner s digit = parse_number s
primary_at inner s _ = ok (0, s)

unfoldable mutual
  pub parse_arithmetic_expr : ℕ → Text → Read
  parse_arithmetic_expr zero s = out_of_fuel
  parse_arithmetic_expr (suc f) s = parse_additive f s

  pub parse_additive : ℕ → Text → Read
  parse_additive zero s = out_of_fuel
  parse_additive (suc f) s = parse_multiplicative f s >>= (λ r. additive_loop f r.0 r.1)

  pub additive_loop : ℕ → ℕ → Text → Read
  additive_loop zero left s = out_of_fuel
  additive_loop (suc f) left s =
      let s' = skip_whitespace s in
      additive_at (parse_multiplicative f) (additive_loop f) left s' (peek s')

  pub parse_multiplicative : ℕ → Text → Read
  parse_multiplicative zero s = out_of_fuel
  parse_multiplicative (suc f) s = parse_unary f s >>= (λ r. multiplicative_loop f r.0 r.1)

  pub multiplicative_loop : ℕ → ℕ → Text → Read
  multiplicative_loop zero left s = out_of_fuel
  multiplicative_loop (suc f) left s =
      let s' = skip_whitespace s in
      multiplicative_at (parse_unary f) (multiplicative_loop f) left s' (peek s')

  pub parse_unary : ℕ → Text → Read
  parse_unary zero s = out_of_fuel
  parse_unary (suc f) s = let s' = skip_whitespace s in unary_at (parse_primary f) s' (peek s')

  pub parse_primary : ℕ → Text → Read
  parse_primary zero s = out_of_fuel
  parse_primary (suc f) s =
      let s' = skip_whitespace s in primary_at (parse_arithmetic_expr f) s' (peek s')

-- Enough for a text: each character begins at most eight calls.
abbrev pub fuel_for : Text → ℕ
fuel_for s = 8 * length s + 5

-- What stands behind the expression is not looked at.
unfoldable pub eval_arithmetic_expr : Text → Outcome ℕ
unfolding trim parse_arithmetic_expr
eval_arithmetic_expr expr =
    let s = trim expr in
    if is_empty s then ok 0 else parse_arithmetic_expr (fuel_for s) s >>= (λ r. ok r.0)

module _ (world : World) (shell : Shell) (ctx : ExecContext) where
  abbrev pub is_word : ℕ → Bool
  is_word c = world.is_alphabetic c || world.is_numeric c || (eqb c b'_')

  -- A name without a `$` stands for 0 where its value is empty.
  abbrev pub or_zero : Text → Text
  or_zero value = if is_empty value then b'0' ∷ [] else value

  -- A round takes a character off the text, so that its length is enough fuel.
  unfoldable pub expand_loop : ℕ → Text → Text → Outcome Text
  unfolding get_variable_value span
  expand_loop zero result [] = ok result
  expand_loop zero result (c ∷ s) = out_of_fuel
  expand_loop (suc fuel) result [] = ok result
  expand_loop (suc fuel) result (c ∷ s) =
      let (name, rest) = span is_word s in
      elim (eqb c b'$') [
        | true ↦
            get_variable_value world shell ctx name
            >>= (λ value. expand_loop fuel (result ++ value) rest)
        | false ↦ elim (world.is_alphabetic c || (eqb c b'_')) [
          | true ↦
              get_variable_value world shell ctx (c ∷ name)
              >>= (λ value. expand_loop fuel (result ++ or_zero value) rest)
          | false ↦ expand_loop fuel (result ++ c ∷ []) s
        ]
      ]

  unfoldable pub expand_arithmetic_vars : Text → Outcome Text
  unfolding expand_loop
  expand_arithmetic_vars expr = expand_loop (length expr) [] expr

  unfoldable pub evaluate_arithmetic : Text → Outcome ℕ
  unfolding trim expand_arithmetic_vars eval_arithmetic_expr
  evaluate_arithmetic expr = expand_arithmetic_vars (trim expr) >>= eval_arithmetic_expr
