-- ===== src/Base/Lists.antt =====
-- `Vec` and slices: lists with native lengths and positions.
use Prim.Native.Nat.{ℕ, zero, suc, ◌+◌, ◌-◌, ◌≤◌, ◌<◌, min}
use mathlib.Core.Path.{◌≡◌, refl, ap, ap₂, ◌∙◌}
use mathlib.Core.Bool.{Bool, true, false}
use mathlib.Core.Option.{Option, none, some}
use mathlib.Core.List.{List, [], ◌∷◌, ◌++◌}
use native.Mathlib.Omega.{arith}
use fs.Base.Tests.{if◌then◌else◌, ltb, eqb}

module _ {ℓ} {A : Type ℓ} where
  abbrev pub length : List A → ℕ
  length [] = 0
  length (x ∷ xs) = suc (length xs)

  abbrev pub get_elem? : List A → ℕ → Option A
  get_elem? [] i = none
  get_elem? (x ∷ xs) zero = some x
  get_elem? (x ∷ xs) (suc i) = get_elem? xs i

  abbrev pub get_or : List A → ℕ → A → A
  get_or [] i d = d
  get_or (x ∷ xs) zero d = x
  get_or (x ∷ xs) (suc i) d = get_or xs i d

  -- A write out of bounds changes nothing.
  abbrev pub set : List A → ℕ → A → List A
  set [] i v = []
  set (x ∷ xs) zero v = v ∷ xs
  set (x ∷ xs) (suc i) v = x ∷ set xs i v

  abbrev pub take : ℕ → List A → List A
  take zero xs = []
  take (suc n) [] = []
  take (suc n) (x ∷ xs) = x ∷ take n xs

  abbrev pub drop : ℕ → List A → List A
  drop zero xs = xs
  drop (suc n) [] = []
  drop (suc n) (x ∷ xs) = drop n xs

  abbrev pub replicate : ℕ → A → List A
  replicate zero v = []
  replicate (suc n) v = v ∷ replicate n v

  -- `xs[start..end]`, for `start ≤ end ≤ len`
  abbrev pub slice : ℕ → ℕ → List A → List A
  slice start end xs = take (end - start) (drop start xs)

  -- `Vec::resize`
  abbrev pub resize : List A → ℕ → A → List A
  resize xs zero v = []
  resize [] (suc n) v = v ∷ resize [] n v
  resize (x ∷ xs) (suc n) v = x ∷ resize xs n v

  -- `xs[start..start + ys.len()].copy_from_slice(ys)`
  abbrev pub overwrite : List A → ℕ → List A → List A
  overwrite [] start ys = []
  overwrite (x ∷ xs) (suc start) ys = x ∷ overwrite xs start ys
  overwrite (x ∷ xs) zero [] = x ∷ xs
  overwrite (x ∷ xs) zero (y ∷ ys) = y ∷ overwrite xs zero ys

  pub length-append : (xs ys : List A) → length (xs ++ ys) ≡ length xs + length ys
  length-append [] ys = omega arith
  length-append (x ∷ xs) ys = omega (arith, length-append xs ys)

  pub length-resize : (xs : List A) (n : ℕ) (v : A) → length (resize xs n v) ≡ n
  length-resize xs zero v = refl
  length-resize [] (suc n) v = omega (arith, length-resize [] n v)
  length-resize (x ∷ xs) (suc n) v = omega (arith, length-resize xs n v)

  pub length-overwrite :
      (xs : List A) (n : ℕ) (ys : List A) → length (overwrite xs n ys) ≡ length xs
  length-overwrite [] n ys = refl
  length-overwrite (x ∷ xs) (suc n) ys = omega (arith, length-overwrite xs n ys)
  length-overwrite (x ∷ xs) zero [] = refl
  length-overwrite (x ∷ xs) zero (y ∷ ys) = omega (arith, length-overwrite xs zero ys)

  pub length-replicate : (n : ℕ) (v : A) → length (replicate n v) ≡ n
  length-replicate zero v = refl
  length-replicate (suc n) v = omega (arith, length-replicate n v)

  pub length-take : (n : ℕ) (xs : List A) → length (take n xs) ≡ min n (length xs)
  length-take zero xs = omega arith
  length-take (suc n) [] = omega arith
  length-take (suc n) (x ∷ xs) = omega (arith, length-take n xs)

  pub length-drop : (n : ℕ) (xs : List A) → length (drop n xs) ≡ length xs - n
  length-drop zero xs = omega arith
  length-drop (suc n) [] = omega arith
  length-drop (suc n) (x ∷ xs) = omega (arith, length-drop n xs)

  get_or-overwrite_front :
      (xs ys : List A) (i : ℕ) (d : A)
      → length ys ≤ length xs
      → get_or (overwrite xs 0 ys) i d
        ≡ (if ltb i (length ys) then get_or ys i d else get_or xs i d)
  get_or-overwrite_front [] ys i d h = ground arith
  get_or-overwrite_front (x ∷ xs) [] zero d h = refl
  get_or-overwrite_front (x ∷ xs) [] (suc i) d h = ground arith
  get_or-overwrite_front (x ∷ xs) (y ∷ ys) zero d h = ground arith
  get_or-overwrite_front (x ∷ xs) (y ∷ ys) (suc i) d h =
      ground (arith, get_or-overwrite_front xs ys i d)

  -- One element of a list that was overwritten.
  pub get_or-overwrite :
      (xs : List A) (n : ℕ) (ys : List A) (i : ℕ) (d : A)
      → n + length ys ≤ length xs
      → get_or (overwrite xs n ys) i d ≡ (
          if ltb i n
          then get_or xs i d
          else if ltb (i - n) (length ys)
          then get_or ys (i - n) d
          else get_or xs i d)
  get_or-overwrite xs zero ys i d h =
      let e : i - 0 ≡ i = omega arith in
      rw e (get_or-overwrite_front xs ys i d (omega arith) ∙ ground arith)
  get_or-overwrite [] (suc n) ys i d h = absurd (omega arith)
  get_or-overwrite (x ∷ xs) (suc n) ys zero d h = ground arith
  get_or-overwrite (x ∷ xs) (suc n) ys (suc i) d h =
      let e : suc i - suc n ≡ i - n = omega arith in
      rw e (get_or-overwrite xs n ys i d (omega arith) ∙ ground arith)

  pub get_or_past : (xs : List A) (i : ℕ) (d : A) → length xs ≤ i → get_or xs i d ≡ d
  get_or_past [] i d h = refl
  get_or_past (x ∷ xs) zero d h = absurd (omega arith)
  get_or_past (x ∷ xs) (suc i) d h = get_or_past xs i d (omega arith)

  pub get_or-replicate : (n : ℕ) (v : A) (i : ℕ) → get_or (replicate n v) i v ≡ v
  get_or-replicate zero v i = refl
  get_or-replicate (suc n) v zero = refl
  get_or-replicate (suc n) v (suc i) = get_or-replicate n v i

  -- Growing with the default value shows nothing new.
  pub get_or-resize :
      (xs : List A) (n i : ℕ) (d : A)
      → get_or (resize xs n d) i d ≡ (if ltb i n then get_or xs i d else d)
  get_or-resize xs zero i d = ground arith
  get_or-resize [] (suc n) zero d = ground arith
  get_or-resize [] (suc n) (suc i) d = ground (arith, get_or-resize [] n i d)
  get_or-resize (x ∷ xs) (suc n) zero d = ground arith
  get_or-resize (x ∷ xs) (suc n) (suc i) d = ground (arith, get_or-resize xs n i d)

  pub get_or-take :
      (n : ℕ) (xs : List A) (i : ℕ) (d : A)
      → get_or (take n xs) i d ≡ (if ltb i n then get_or xs i d else d)
  get_or-take zero xs i d = ground arith
  get_or-take (suc n) [] i d = ground arith
  get_or-take (suc n) (x ∷ xs) zero d = ground arith
  get_or-take (suc n) (x ∷ xs) (suc i) d = ground (arith, get_or-take n xs i d)

  pub get_or-drop :
      (n : ℕ) (xs : List A) (i : ℕ) (d : A) → get_or (drop n xs) i d ≡ get_or xs (n + i) d
  get_or-drop zero xs i d = ap (λ k. get_or xs k d) (omega arith)
  get_or-drop (suc n) [] i d = refl
  get_or-drop (suc n) (x ∷ xs) i d = ground (arith, get_or-drop n xs i d)

  pub get_or-slice :
      (start end i : ℕ) (xs : List A) (d : A)
      → get_or (slice start end xs) i d
        ≡ (if ltb i (end - start) then get_or xs (start + i) d else d)
  get_or-slice start end i xs d =
      get_or-take (end - start) (drop start xs) i d ∙ ground (arith, get_or-drop start xs i d)

  pub drop_all : (n : ℕ) (xs : List A) → length xs ≤ n → drop n xs ≡ []
  drop_all zero [] h = refl
  drop_all zero (x ∷ xs) h = absurd (omega arith)
  drop_all (suc n) [] h = refl
  drop_all (suc n) (x ∷ xs) h = drop_all n xs (omega arith)

  pub drop-snoc :
      (xs : List A) (n : ℕ) (value : A)
      → n ≤ length xs
      → drop n (xs ++ value ∷ []) ≡ drop n xs ++ value ∷ []
  drop-snoc xs zero value h = refl
  drop-snoc [] (suc n) value h = absurd (omega arith)
  drop-snoc (x ∷ xs) (suc n) value h = drop-snoc xs n value (omega arith)

  pub drop-append : (xs ys : List A) → drop (length xs) (xs ++ ys) ≡ ys
  drop-append [] ys = refl
  drop-append (x ∷ xs) ys = drop-append xs ys

  pub drop-get_or :
      (n : ℕ) (xs : List A) (d : A) → n < length xs → drop n xs ≡ get_or xs n d ∷ drop (suc n) xs
  drop-get_or n [] d h = absurd (omega arith)
  drop-get_or zero (x ∷ xs) d h = refl
  drop-get_or (suc n) (x ∷ xs) d h = drop-get_or n xs d (omega arith)

  pub length-slice :
      (start end : ℕ) (xs : List A)
      → length (slice start end xs) ≡ min (end - start) (length xs - start)
  length-slice start end xs =
      length-take (end - start) (drop start xs) ∙ omega (arith, length-drop start xs)

  pub get_or-append :
      (xs ys : List A) (i : ℕ) (d : A)
      → get_or (xs ++ ys) i d
        ≡ (if ltb i (length xs) then get_or xs i d else get_or ys (i - length xs) d)
  get_or-append [] ys i d = ground arith
  get_or-append (x ∷ xs) ys zero d = ground arith
  get_or-append (x ∷ xs) ys (suc i) d = ground (arith, get_or-append xs ys i d)

  -- Two lists of one length with the same elements are equal.
  pub eq_of_get_or :
      (xs ys : List A) (d : A)
      → length xs ≡ length ys
      → ((i : ℕ) → i < length xs → get_or xs i d ≡ get_or ys i d)
      → xs ≡ ys
  eq_of_get_or [] [] d h p = refl
  eq_of_get_or [] (y ∷ ys) d h p = absurd (omega arith)
  eq_of_get_or (x ∷ xs) [] d h p = absurd (omega arith)
  eq_of_get_or (x ∷ xs) (y ∷ ys) d h p =
      ap₂ ◌∷◌ (p 0 (omega arith))
        (eq_of_get_or xs ys d (omega arith) (λ i q. p (suc i) (omega arith)))

  pub length-set : (xs : List A) (i : ℕ) (v : A) → length (set xs i v) ≡ length xs
  length-set [] i v = refl
  length-set (x ∷ xs) zero v = refl
  length-set (x ∷ xs) (suc i) v = omega (arith, length-set xs i v)

  pub get_or-set :
      (xs : List A) (i : ℕ) (v : A) (j : ℕ) (d : A)
      → i < length xs
      → get_or (set xs i v) j d ≡ (if eqb i j then v else get_or xs j d)
  get_or-set [] i v j d h = absurd (omega arith)
  get_or-set (x ∷ xs) zero v zero d h = ground arith
  get_or-set (x ∷ xs) zero v (suc j) d h = ground arith
  get_or-set (x ∷ xs) (suc i) v zero d h = ground arith
  get_or-set (x ∷ xs) (suc i) v (suc j) d h = ground (arith, get_or-set xs i v j d)

abbrev pub has : List ℕ → ℕ → Bool
has [] a = false
has (x ∷ xs) a = let rest = has xs a in if eqb x a then true else rest

pub has-append : (xs ys : List ℕ) (a : ℕ) → has (xs ++ ys) a ≡ (if has xs a then true else has ys a)
has-append [] ys a = refl
has-append (x ∷ xs) ys a = ground (arith, has-append xs ys a)
