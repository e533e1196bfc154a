-- ===== src/Sh9/Arithmetic/Tokens.antt =====
-- Single steps of sh9/src/eval/arithmetic.rs on the text of an expression: white space, numbers and
-- what ends them.
use fs.Base.{
  ℕ, ◌<◌, true, false, ◌∷◌, [], ◌++◌, Text, ◌≡◌, ◌≢◌, refl, sym, ◌∙◌, arith, eqb, leb, length,
  Bool-cases, inl, inr,
}
use fs.Base.Whitespace.{
  is_whitespace, is_digit, trim_start, IsBlank, trim_start-blank, trim_start-twice,
}
use fs.Base.Decimal.{decimal, all_digits, all_digits-decimal, parse_unsigned-decimal}
use fs.Sh9.Outcome.{Outcome, ok, ◌>>=◌, >>=-assoc, bind-cong}
use fs.Sh9.Int64.{i64_max}
use fs.Sh9.Arithmetic.Grammar.{
  Sums, no_sums, add, sub, Factors, no_factors, multiply, divide, modulo, print_sums, print_factors,
  quotient, literal,
}
use fs.Sh9.Arithmetic
use fs.Sh9.Arithmetic.{
  Read, plus, minus, times, over, percent, digit, kind, peek, skip_whitespace, span, parse_number,
}

-- The text does not go on with a digit.
abbrev pub EndsNumber : Text → Type 0
EndsNumber s = peek s ≢ digit

-- Neither does it with an operator of a product, or of a sum, after white space.
abbrev pub EndsProduct : Text → Type 0
EndsProduct s =
    EndsNumber s
    × (peek (skip_whitespace s) ≢ times)
    × (peek (skip_whitespace s) ≢ over)
    × (peek (skip_whitespace s) ≢ percent)

abbrev pub EndsSum : Text → Type 0
EndsSum s = EndsProduct s × (peek (skip_whitespace s) ≢ plus) × (peek (skip_whitespace s) ≢ minus)

skip-token :
    (w : Text) (c : ℕ) (s : Text)
    → IsBlank w
    → is_whitespace c ≡ false
    → skip_whitespace (w ++ c ∷ s) ≡ c ∷ s
unfolding skip_whitespace trim_start
skip-token w c s h k = trim_start-blank w (c ∷ s) h ∙ rw k refl

pub skip-twice : (s : Text) → skip_whitespace (skip_whitespace s) ≡ skip_whitespace s
unfolding skip_whitespace
skip-twice s = trim_start-twice s

-- A digit is no white space and no operator.
pub kind-digit : (c : ℕ) → is_digit c ≡ true → (kind c ≡ digit) × (is_whitespace c ≡ false)
kind-digit c h = ground arith

not_digit : (c : ℕ) → kind c ≢ digit → is_digit c ≡ false
not_digit c h = ground (arith, kind-digit c)

kind-blank : (c : ℕ) → is_whitespace c ≡ true → kind c ≢ digit
kind-blank c h = λ e. ground arith

pub span-digits :
    (d s : Text) → all_digits d ≡ true → EndsNumber s → span is_digit (d ++ s) ≡ (d, s)
unfolding span
span-digits [] [] h e = refl
span-digits [] (c ∷ s) h e = rw (not_digit c e) refl
span-digits (c ∷ d) s h e =
    let (first, others) = digits_cons in rw (first, span-digits d s others e) refl
  where
    digits_cons : (is_digit c ≡ true) × (all_digits d ≡ true)
    digits_cons = ground arith

-- A value, read from the front of a text that leaves `rest`.
abbrev pub leaves : Text → Outcome ℕ → Read
leaves rest r = r >>= (λ a. ok (a, rest))

-- A value that is read, and what is done with it and the text behind it.
pub chain :
    (t rest : Text) (r : Outcome ℕ) (k : ℕ × Text → Read) (g : ℕ → Outcome ℕ)
    → ((a : ℕ) → k (a, t) ≡ leaves rest (g a))
    → leaves t r >>= k ≡ leaves rest (r >>= g)
chain t rest r k g h = >>=-assoc r _ k ∙ bind-cong r (λ a. k (a, t)) _ h ∙ sym (>>=-assoc r g _)

pub chain_same :
    (t rest : Text) (r : Outcome ℕ) (k : ℕ × Text → Read)
    → ((a : ℕ) → k (a, t) ≡ ok (a, rest))
    → leaves t r >>= k ≡ leaves rest r
chain_same t rest r k h = >>=-assoc r _ k ∙ bind-cong r (λ a. k (a, t)) _ h

pub divide-quotient :
    (op : ℕ → ℕ → Outcome ℕ) (a b : ℕ) (rest : Text)
    → Arithmetic.divide op a b rest ≡ leaves rest (quotient op a b)
unfolding Arithmetic.divide
divide-quotient op a b rest = elim (Bool-cases (eqb b 0)) [
  | inl e ↦ rw (Arithmetic.divide, e) refl
  | inr e ↦ rw (Arithmetic.divide, e) refl
]

pub parse_number-decimal :
    (n : ℕ) (rest : Text)
    → EndsNumber rest
    → parse_number (decimal n ++ rest) ≡ leaves rest (literal n)
unfolding parse_number
parse_number-decimal n rest e =
    let whole : span is_digit (decimal n ++ rest) ≡ (decimal n, rest) =
      span-digits (decimal n) rest (all_digits-decimal n) e in
    rw (parse_number, whole, parse_unsigned-decimal i64_max n)
      (elim (Bool-cases (leb n i64_max)) [
        | inl h ↦ rw (h, whole) refl
        | inr h ↦ rw (h, whole) refl
      ])

-- A printed number begins with a digit.
pub peek-decimal :
    (d rest : Text)
    → 0 < length d
    → all_digits d ≡ true
    → (peek (d ++ rest) ≡ digit) × (skip_whitespace (d ++ rest) ≡ d ++ rest)
unfolding skip_whitespace trim_start
peek-decimal [] rest l a = absurd (omega arith)
peek-decimal (c ∷ d) rest l a =
    let first : is_digit c ≡ true = ground arith in
    let (k, w) = kind-digit c first in (k, rw w refl)

module _ (w : Text) (blank : IsBlank w) where
  -- Behind white space and a token that is no digit a number has ended.
  pub EndsNumber-token : (c : ℕ) (s : Text) → kind c ≢ digit → EndsNumber (w ++ c ∷ s)
  EndsNumber-token c s h = go w blank
    where
      go : (v : Text) → IsBlank v → EndsNumber (v ++ c ∷ s)
      go [] b = h
      go (d ∷ v) (b, bs) = kind-blank d b

  pub skip : (c : ℕ) (s : Text) → is_whitespace c ≡ false → skip_whitespace (w ++ c ∷ s) ≡ c ∷ s
  skip c s h = skip-token w c s blank h

  -- Neither a product goes on behind a token that is no operator of it.
  EndsProduct-token :
      (c : ℕ) (s : Text)
      → is_whitespace c ≡ false
      → kind c ≢ digit
      → kind c ≢ times
      → kind c ≢ over
      → kind c ≢ percent
      → EndsProduct (w ++ c ∷ s)
  EndsProduct-token c s h d t o p =
      let token : skip_whitespace (w ++ c ∷ s) ≡ c ∷ s = skip c s h in
      (EndsNumber-token c s d, rw token t, rw token o, rw token p)

  pub EndsProduct-sums :
      (ss : Sums) (rest : Text) → EndsSum rest → EndsProduct (print_sums w ss rest)
  unfolding print_sums
  EndsProduct-sums no_sums rest (e, p, m) = e
  EndsProduct-sums (add p ss) rest e =
      EndsProduct-token b'+' _ refl (λ q. cc) (λ q. cc) (λ q. cc) (λ q. cc)
  EndsProduct-sums (sub p ss) rest e =
      EndsProduct-token b'-' _ refl (λ q. cc) (λ q. cc) (λ q. cc) (λ q. cc)

  pub EndsNumber-factors :
      (fs : Factors) (rest : Text) → EndsNumber rest → EndsNumber (print_factors w fs rest)
  unfolding print_factors
  EndsNumber-factors no_factors rest e = e
  EndsNumber-factors (multiply u fs) rest e = EndsNumber-token b'*' _ (λ q. cc)
  EndsNumber-factors (divide u fs) rest e = EndsNumber-token b'/' _ (λ q. cc)
  EndsNumber-factors (modulo u fs) rest e = EndsNumber-token b'%' _ (λ q. cc)

  pub EndsSum-close : (rest : Text) → EndsSum (w ++ b')' ∷ rest)
  EndsSum-close rest =
      let token : skip_whitespace (w ++ b')' ∷ rest) ≡ b')' ∷ rest = skip b')' rest refl in
      (
        EndsProduct-token b')' rest refl (λ q. cc) (λ q. cc) (λ q. cc) (λ q. cc),
        rw token (λ q. cc),
        rw token (λ q. cc),
      )
