-- ===== src/Sh9/Arithmetic/Steps.antt =====
-- Where a loop of sh9/src/eval/arithmetic.rs ends, and the lengths of the text of an expression.
use fs.Base.{
  ℕ, zero, suc, ◌+◌, ◌*◌, ◌≤◌, ◌∷◌, ◌++◌, Text, ◌≡◌, ◌≢◌, refl, ap, ◌∙◌, arith, length,
  length-append,
}
use fs.Base.Whitespace.{IsBlank, trim_start-blank}
use fs.Base.Decimal.{decimal, all_digits-decimal, length-decimal}
use fs.Sh9.Outcome.{Outcome, ok, ◌>>=◌}
use fs.Sh9.Arithmetic.Grammar.{
  Sum, sum, Sums, no_sums, add, sub, Product, product, Factors, no_factors, multiply, divide,
  modulo, Signed, plain, negative, positive, Primary, number, parens, print_sum, print_sums,
  print_product, print_factors, print_signed, print_primary, value_signed, quotient,
}
use fs.Sh9.Arithmetic
use fs.Sh9.Arithmetic.Tokens.{peek-decimal, divide-quotient, leaves, chain, skip-twice, skip}
use fs.Sh9.Arithmetic.{
  Read, Peek, plus, minus, times, over, percent, peek, skip_whitespace, expect_close, additive_loop,
  additive_at, multiplicative_at, unary_at, parse_primary,
}

pub sums-skip : (f a : ℕ) (s : Text) → additive_loop f a (skip_whitespace s) ≡ additive_loop f a s
unfolding additive_loop
sums-skip zero a s = refl
sums-skip (suc f) a s = rw (skip-twice s) refl

pub additive_at-ends :
    (operand : Text → Read) (next : ℕ → Text → Read) (a : ℕ) (s : Text) (p : Peek)
    → p ≢ plus
    → p ≢ minus
    → additive_at operand next a s p ≡ ok (a, s)
unfolding additive_at
additive_at-ends operand next a s plus h k = absurd (h refl)
additive_at-ends operand next a s minus h k = absurd (k refl)
additive_at-ends operand next a s _ h k = refl

pub multiplicative_at-ends :
    (operand : Text → Read) (next : ℕ → Text → Read) (a : ℕ) (s : Text) (p : Peek)
    → p ≢ times
    → p ≢ over
    → p ≢ percent
    → multiplicative_at operand next a s p ≡ ok (a, s)
unfolding multiplicative_at
multiplicative_at-ends operand next a s times h k l = absurd (h refl)
multiplicative_at-ends operand next a s over h k l = absurd (k refl)
multiplicative_at-ends operand next a s percent h k l = absurd (l refl)
multiplicative_at-ends operand next a s _ h k l = refl

pub primary-skip : (f : ℕ) (s : Text) → parse_primary f (skip_whitespace s) ≡ parse_primary f s
unfolding parse_primary
primary-skip zero s = refl
primary-skip (suc f) s = rw (skip-twice s) refl

pub unary_at-plain :
    (operand : Text → Read) (s : Text) (p : Peek)
    → p ≢ minus
    → p ≢ plus
    → unary_at operand s p ≡ operand s
unfolding unary_at
unary_at-plain operand s minus h k = absurd (h refl)
unary_at-plain operand s plus h k = absurd (k refl)
unary_at-plain operand s _ h k = refl

-- A division by a factor that was read, and what follows it.
pub divided :
    (op : ℕ → ℕ → Outcome ℕ) (a : ℕ) (u : Signed) (t rest : Text)
    → (next : ℕ × Text → Read) (g : ℕ → Outcome ℕ) → ((c : ℕ) → next (c, t) ≡ leaves rest (g c))
    → leaves t (value_signed u) >>= (λ r. Arithmetic.divide op a r.0 r.1) >>= next
      ≡ leaves rest (value_signed u >>= (λ b. quotient op a b) >>= g)
divided op a u t rest next g h =
    ap (λ r. r >>= next)
      (chain t t (value_signed u) _ (λ b. quotient op a b) λ b. divide-quotient op a b t)
    ∙ chain t rest (value_signed u >>= (λ b. quotient op a b)) next g h

module _ (w : Text) (blank : IsBlank w) where
  -- What stands behind a token is shorter, also past one more expression.
  behind :
      (c : ℕ) (a b t : Text)
      → length a ≤ length b
      → length b ≤ length t
      → length a ≤ length (w ++ c ∷ t)
  behind c a b t h k = omega (arith, length-append w (c ∷ t))

  pub skip_blank : (s : Text) → skip_whitespace (w ++ s) ≡ skip_whitespace s
  unfolding skip_whitespace
  skip_blank s = trim_start-blank w s blank

  -- The text behind an expression is part of its text.
  mutual
    unfolding print_sum print_sums print_product print_factors print_signed print_primary

    length-sum : (e : Sum) (rest : Text) → length rest ≤ length (print_sum w e rest)
    length-sum (sum p ss) rest =
        omega (arith, length-product p (print_sums w ss rest), length-sums ss rest)

    length-sums : (ss : Sums) (rest : Text) → length rest ≤ length (print_sums w ss rest)
    length-sums no_sums rest = omega arith
    length-sums (add p ss) rest = behind b'+' rest _ _ (length-sums ss rest) (length-product p _)
    length-sums (sub p ss) rest = behind b'-' rest _ _ (length-sums ss rest) (length-product p _)

    pub length-product : (p : Product) (rest : Text) → length rest ≤ length (print_product w p rest)
    length-product (product u fs) rest =
        omega (arith, length-signed u (print_factors w fs rest), length-factors fs rest)

    length-factors : (fs : Factors) (rest : Text) → length rest ≤ length (print_factors w fs rest)
    length-factors no_factors rest = omega arith
    length-factors (multiply u fs) rest =
        behind b'*' rest _ _ (length-factors fs rest) (length-signed u _)
    length-factors (divide u fs) rest =
        behind b'/' rest _ _ (length-factors fs rest) (length-signed u _)
    length-factors (modulo u fs) rest =
        behind b'%' rest _ _ (length-factors fs rest) (length-signed u _)

    pub length-signed : (u : Signed) (rest : Text) → length rest ≤ length (print_signed w u rest)
    length-signed (plain p) rest = length-primary p rest
    length-signed (negative p) rest = behind b'-' rest rest _ (omega arith) (length-primary p rest)
    length-signed (positive p) rest = behind b'+' rest rest _ (omega arith) (length-primary p rest)

    length-primary : (p : Primary) (rest : Text) → length rest ≤ length (print_primary w p rest)
    length-primary (number n) rest =
        omega (arith, length-append w (decimal n ++ rest), length-append (decimal n) rest)
    length-primary (parens s) rest =
        behind b'(' rest (w ++ b')' ∷ rest) _
          (behind b')' rest rest rest (omega arith) (omega arith)) (length-sum s (w ++ b')' ∷ rest))

  -- The fuel that a token leaves for what stands behind it.
  pub room : (c : ℕ) (t : Text) (f : ℕ) → 8 * length (w ++ c ∷ t) + 1 ≤ suc f → 8 * length t + 8 ≤ f
  room c t f h = omega (arith, length-append w (c ∷ t))

  pub room_behind :
      (c : ℕ) (t s : Text) (f : ℕ)
      → 8 * length (w ++ c ∷ t) + 1 ≤ suc f
      → length s ≤ length t
      → 8 * length s + 1 ≤ f
  room_behind c t s f h l = omega (arith, room c t f h)

  -- A printed primary begins with a digit or a parenthesis.
  pub peek-primary :
      (p : Primary) (rest : Text)
      → let s = skip_whitespace (print_primary w p rest) in (peek s ≢ minus) × (peek s ≢ plus)
  unfolding print_primary
  peek-primary (number n) rest =
      let (d, same) = peek-decimal (decimal n) rest (length-decimal n) (all_digits-decimal n) in
      rw (skip_blank (decimal n ++ rest), same, d) (λ q. cc, λ q. cc)
  peek-primary (parens s) rest =
      rw (skip w blank b'(' (print_sum w s (w ++ b')' ∷ rest)) refl) (λ q. cc, λ q. cc)

  pub close :
      (a : ℕ) (rest : Text)
      → let t = skip_whitespace (skip_whitespace (w ++ b')' ∷ rest)) in
        expect_close a t (peek t) ≡ ok (a, rest)
  unfolding expect_close
  close a rest = rw (skip-twice (w ++ b')' ∷ rest), skip w blank b')' rest refl) refl
