-- ===== src/Sh9/Outcome.antt =====
-- sh9/src/error.rs: the errors of the shell, and the outcome of a run of its code.
use mathlib.Core.Path.{subst}
use fs.Base.{Bool, true, false, Text, ◌≡◌, ◌≢◌, refl, if◌then◌else◌}

-- The errors that the modelled code gives.
pub data Sh9Error : Type 0 where
  parse runtime : Text → Sh9Error

-- `panic` is a run that aborts, and `out_of_fuel` has no counterpart in the program.
pub data Outcome {ℓ} (A : Type ℓ) : Type ℓ where
  ok : A → Outcome A
  err : Sh9Error → Outcome A
  panic out_of_fuel : Outcome A

-- `?`
infixl 5 ◌>>=◌
abbrev pub ◌>>=◌ {ℓ κ} : {A : Type ℓ} {B : Type κ} → Outcome A → (A → Outcome B) → Outcome B
ok a >>= f = f a
err e >>= f = err e
panic >>= f = panic
out_of_fuel >>= f = out_of_fuel

-- The run kept within its fuel, and `P` holds of its value if it has one.
pub data Ensures {ℓ κ} {A : Type ℓ} (P : A → Type κ) : Outcome A → Type (ℓ ⊔ κ) where
  holds : {a : A} → P a → Ensures P (ok a)
  failed : {e : Sh9Error} → Ensures P (err e)
  aborted : Ensures P panic

module _ {ℓ κ} {A : Type ℓ} {P : A → Type κ} where
  pub Ensures-out_of_fuel : {r : Outcome A} → Ensures P r → r ≢ out_of_fuel
  Ensures-out_of_fuel (holds h) = cc
  Ensures-out_of_fuel failed = cc
  Ensures-out_of_fuel aborted = cc

  pub Ensures-ok : {r : Outcome A} {a : A} → Ensures P r → r ≡ ok a → P a
  Ensures-ok (holds h) e = subst P (cc) h
  Ensures-ok failed e = cc
  Ensures-ok aborted e = cc

  pub Ensures-weaken {κ'} :
      {Q : A → Type κ'} {r : Outcome A} → Ensures P r → ((a : A) → P a → Q a) → Ensures Q r
  Ensures-weaken (holds {a} h) k = holds (k a h)
  Ensures-weaken failed k = failed
  Ensures-weaken aborted k = aborted

  pub Ensures-bind {ℓ' κ'} :
      {B : Type ℓ'} {Q : B → Type κ'} {r : Outcome A} {f : A → Outcome B}
      → Ensures P r
      → ((a : A) → P a → Ensures Q (f a))
      → Ensures Q (r >>= f)
  Ensures-bind (holds {a} h) k = k a h
  Ensures-bind failed k = failed
  Ensures-bind aborted k = aborted

  pub Ensures-if :
      (b : Bool) {x y : Outcome A} → Ensures P x → Ensures P y → Ensures P (if b then x else y)
  Ensures-if true hx hy = hx
  Ensures-if false hx hy = hy

pub >>=-assoc {ℓ κ ℓ'} :
    {A : Type ℓ} {B : Type κ} {C : Type ℓ'} (r : Outcome A) (f : A → Outcome B) (g : B → Outcome C)
    → r >>= f >>= g ≡ r >>= (λ a. f a >>= g)
>>=-assoc (ok a) f g = refl
>>=-assoc (err e) f g = refl
>>=-assoc panic f g = refl
>>=-assoc out_of_fuel f g = refl

-- What follows a run matters only for the values that the run gives.
pub bind-cong {ℓ κ} :
    {A : Type ℓ} {B : Type κ} (r : Outcome A) (f g : A → Outcome B)
    → ((a : A) → f a ≡ g a)
    → r >>= f ≡ r >>= g
bind-cong (ok a) f g h = h a
bind-cong (err e) f g h = refl
bind-cong panic f g h = refl
bind-cong out_of_fuel f g h = refl
