-- ===== src/Base/Cuts.antt =====
-- What is left of a list behind a cut: `Vec::drain(..n)` and slices of the rest.
use Prim.Native.Nat.{ℕ, zero, suc, ◌+◌, min}
use mathlib.Core.Path.{◌≡◌, refl, ap}
use mathlib.Core.List.{List, [], ◌∷◌, ◌++◌}
use native.Mathlib.Numerals.{unary_clauses}
use fs.Base.Lists.{length, take, drop}

module _ {ℓ} {A : Type ℓ} where
  pub take-drop : (n : ℕ) (xs : List A) → take n xs ++ drop n xs ≡ xs
  take-drop zero xs = refl
  take-drop (suc n) [] = refl
  take-drop (suc n) (x ∷ xs) = ap (λ ys. x ∷ ys) (take-drop n xs)

  pub drop-drop : (n k : ℕ) (xs : List A) → drop k (drop n xs) ≡ drop (k + n) xs
  drop-drop zero k xs = simp unary_clauses
  drop-drop (suc n) zero [] = simp unary_clauses
  drop-drop (suc n) (suc k) [] = simp unary_clauses
  drop-drop (suc n) k (x ∷ xs) = simp unary_clauses (drop-drop n k xs)

  -- Behind a prefix.
  pub drop-behind : (xs ys : List A) (k : ℕ) → drop (k + length xs) (xs ++ ys) ≡ drop k ys
  drop-behind [] ys k = simp unary_clauses
  drop-behind (x ∷ xs) ys k = simp unary_clauses (drop-behind xs ys k)

  pub take-min : (n : ℕ) (xs : List A) → take (min n (length xs)) xs ≡ take n xs
  take-min zero xs = simp unary_clauses
  take-min (suc n) [] = simp unary_clauses
  take-min (suc n) (x ∷ xs) = simp unary_clauses (ap (λ ys. x ∷ ys) (take-min n xs))
