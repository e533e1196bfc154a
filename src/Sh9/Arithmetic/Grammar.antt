-- ===== src/Sh9/Arithmetic/Grammar.antt =====
-- What the arithmetic of sh9/src/eval/arithmetic.rs is meant to compute: expressions as trees, their
-- text and their value.
use fs.Base.{ℕ, ◌∷◌, ◌++◌, Text, chars, eqb, leb, if◌then◌else◌}
use fs.Base.Decimal.{decimal}
use fs.Sh9.Outcome.{Outcome, ok, err, runtime, ◌>>=◌}
use fs.Sh9.Int64.{i64_max, wrapping_add, wrapping_sub, wrapping_mul, wrapping_neg, div, rem}

-- A sum is a product and what is added to it and taken from it, in the order of the text; a product
-- is a factor and what it is multiplied with and divided by. A factor has at most one sign.
mutual
  pub data Sum : Type 0 where
    sum : Product → Sums → Sum

  pub data Sums : Type 0 where
    no_sums : Sums
    add sub : Product → Sums → Sums

  pub data Product : Type 0 where
    product : Signed → Factors → Product

  pub data Factors : Type 0 where
    no_factors : Factors
    multiply divide modulo : Signed → Factors → Factors

  pub data Signed : Type 0 where
    plain negative positive : Primary → Signed

  pub data Primary : Type 0 where
    number : ℕ → Primary
    parens : Sum → Primary

-- The text of an expression with `rest` behind it, and with the white space `w` before each token.
module _ (w : Text) where
  unfoldable mutual
    pub print_sum : Sum → Text → Text
    print_sum (sum p ss) rest = print_product p (print_sums ss rest)

    pub print_sums : Sums → Text → Text
    print_sums no_sums rest = rest
    print_sums (add p ss) rest = w ++ b'+' ∷ print_product p (print_sums ss rest)
    print_sums (sub p ss) rest = w ++ b'-' ∷ print_product p (print_sums ss rest)

    pub print_product : Product → Text → Text
    print_product (product u fs) rest = print_signed u (print_factors fs rest)

    pub print_factors : Factors → Text → Text
    print_factors no_factors rest = rest
    print_factors (multiply u fs) rest = w ++ b'*' ∷ print_signed u (print_factors fs rest)
    print_factors (divide u fs) rest = w ++ b'/' ∷ print_signed u (print_factors fs rest)
    print_factors (modulo u fs) rest = w ++ b'%' ∷ print_signed u (print_factors fs rest)

    pub print_signed : Signed → Text → Text
    print_signed (plain p) rest = print_primary p rest
    print_signed (negative p) rest = w ++ b'-' ∷ print_primary p rest
    print_signed (positive p) rest = w ++ b'+' ∷ print_primary p rest

    pub print_primary : Primary → Text → Text
    print_primary (number n) rest = w ++ (decimal n ++ rest)
    print_primary (parens s) rest = w ++ b'(' ∷ print_sum s (w ++ b')' ∷ rest)

-- A quotient or a remainder, an error for a divisor of zero.
abbrev pub quotient : (ℕ → ℕ → Outcome ℕ) → ℕ → ℕ → Outcome ℕ
quotient op a b = if eqb b 0 then err (runtime (chars "Division by zero")) else op a b

abbrev pub literal : ℕ → Outcome ℕ
literal n = if leb n i64_max then ok n else err (runtime (chars "Invalid number: " ++ decimal n))

-- The values, from left to right.
unfoldable mutual
  pub value_sum : Sum → Outcome ℕ
  value_sum (sum p ss) = value_product p >>= (λ a. value_sums a ss)

  pub value_sums : ℕ → Sums → Outcome ℕ
  value_sums a no_sums = ok a
  value_sums a (add p ss) = value_product p >>= (λ b. value_sums (wrapping_add a b) ss)
  value_sums a (sub p ss) = value_product p >>= (λ b. value_sums (wrapping_sub a b) ss)

  pub value_product : Product → Outcome ℕ
  value_product (product u fs) = value_signed u >>= (λ a. value_factors a fs)

  pub value_factors : ℕ → Factors → Outcome ℕ
  value_factors a no_factors = ok a
  value_factors a (multiply u fs) = value_signed u >>= (λ b. value_factors (wrapping_mul a b) fs)
  value_factors a (divide u fs) =
      value_signed u >>= (λ b. quotient div a b) >>= (λ c. value_factors c fs)
  value_factors a (modulo u fs) =
      value_signed u >>= (λ b. quotient rem a b) >>= (λ c. value_factors c fs)

  pub value_signed : Signed → Outcome ℕ
  value_signed (plain p) = value_primary p
  value_signed (negative p) = value_primary p >>= (λ a. ok (wrapping_neg a))
  value_signed (positive p) = value_primary p

  pub value_primary : Primary → Outcome ℕ
  value_primary (number n) = literal n
  value_primary (parens s) = value_sum s
