-- ===== src/Base/Order.antt =====
-- The order of `str`, and `BTreeMap<String, _>`: an association list that ascends by its keys.
use Prim.Native.Nat.{◌≤◌}
use mathlib.Core.Path.{◌≡◌, refl}
use mathlib.Core.Logic.{◌≢◌}
use mathlib.Core.Bool.{Bool, true, false}
use mathlib.Core.Option.{some}
use mathlib.Core.List.{[], ◌∷◌}
use native.Mathlib.Omega.{arith}
use fs.Base.Tests.{◌==◌, eqb, ltb, if◌then◌else◌}
use fs.Base.Lists.{length}
use fs.Base.Texts.{Text, text_eq, starts_with}
use fs.Base.Map.{Map, get, remove}

-- The order of scalar values is that of their UTF-8 bytes.
unfoldable pub text_lt : Text → Text → Bool
text_lt s [] = false
text_lt [] (c ∷ t) = true
text_lt (d ∷ s) (c ∷ t) =
    let rest = text_lt s t in if ltb d c then true else if eqb d c then rest else false

pub text_lt_irrefl : (s : Text) → text_lt s s ≡ false
unfolding text_lt
text_lt_irrefl [] = refl
text_lt_irrefl (c ∷ s) = ground (arith, text_lt_irrefl s)

pub text_lt_trans : (s t u : Text) → text_lt s t ≡ true → text_lt t u ≡ true → text_lt s u ≡ true
unfolding text_lt
text_lt_trans s t [] h k = cc
text_lt_trans s [] (e ∷ u) h k = ground arith
text_lt_trans [] (d ∷ t) (e ∷ u) h k = refl
text_lt_trans (c ∷ s) (d ∷ t) (e ∷ u) h k = ground (arith, text_lt_trans s t u)

pub text_lt-total : (s t : Text) → text_lt s t ≡ false → s ≢ t → text_lt t s ≡ true
unfolding text_lt
text_lt-total [] [] h n = absurd (n refl)
text_lt-total [] (c ∷ t) h n = cc
text_lt-total (c ∷ s) [] h n = refl
text_lt-total (c ∷ s) (d ∷ t) h n = ground (arith, text_lt-total s t)

-- A prefix stands before the text, and of two prefixes of a text the later one is the longer.
pub text_lt-prefix : (s p : Text) → starts_with s p ≡ true → text_lt s p ≡ false
unfolding text_lt starts_with
text_lt-prefix s [] h = refl
text_lt-prefix [] (c ∷ p) h = cc
text_lt-prefix (d ∷ s) (c ∷ p) h = ground (arith, text_lt-prefix s p)

pub length-le_of_prefixes :
    (s p q : Text)
    → starts_with s p ≡ true
    → starts_with s q ≡ true
    → text_lt p q ≡ true
    → length p ≤ length q
unfolding text_lt starts_with
length-le_of_prefixes s p [] h k l = cc
length-le_of_prefixes s [] (c ∷ q) h k l = omega arith
length-le_of_prefixes [] (d ∷ p) (c ∷ q) h k l = cc
length-le_of_prefixes (e ∷ s) (d ∷ p) (c ∷ q) h k l = ground (arith, length-le_of_prefixes s p q)

module _ {ℓ} {V : Type ℓ} where
  -- `BTreeMap::insert`
  unfoldable pub insert_sorted : Map Text V → Text → V → Map Text V
  insert_sorted [] k v = (k, v) ∷ []
  insert_sorted ((j, w) ∷ m) k v =
      let rest = insert_sorted m k v in
      if text_lt k j then (k, v) ∷ (j, w) ∷ m else if k == j then (k, v) ∷ m else (j, w) ∷ rest

  -- Every key of the map comes after `k`.
  abbrev pub Above : Text → Map Text V → Type 0
  Above k [] = Unit
  Above k ((j, w) ∷ m) = (text_lt k j ≡ true) × Above k m

  abbrev pub IsSorted : Map Text V → Type 0
  IsSorted [] = Unit
  IsSorted ((j, w) ∷ m) = Above j m × IsSorted m

  pub get-insert_sorted :
      (m : Map Text V) (k : Text) (v : V) (j : Text)
      → get (insert_sorted m k v) j ≡ (if k == j then some v else get m j)
  unfolding get insert_sorted
  get-insert_sorted [] k v j = refl
  get-insert_sorted ((i, w) ∷ m) k v j = ground (arith, get-insert_sorted m k v j)

  pub Above-trans : (j k : Text) (m : Map Text V) → text_lt j k ≡ true → Above k m → Above j m
  Above-trans j k [] h a = tt
  Above-trans j k ((i, w) ∷ m) h (a, b) = (text_lt_trans j k i h a, Above-trans j k m h b)

  Above-insert :
      (j : Text) (m : Map Text V) (k : Text) (v : V)
      → Above j m
      → text_lt j k ≡ true
      → Above j (insert_sorted m k v)
  unfolding insert_sorted
  Above-insert j [] k v a h = (h, tt)
  Above-insert j ((i, w) ∷ m) k v (a, b) h = ground (arith, Above-insert j m k v b h)

  pub insert_sorted-IsSorted :
      (m : Map Text V) (k : Text) (v : V) → IsSorted m → IsSorted (insert_sorted m k v)
  unfolding insert_sorted
  insert_sorted-IsSorted [] k v s = (tt, tt)
  insert_sorted-IsSorted ((i, w) ∷ m) k v (a, s) = ground (
    arith,
    insert_sorted-IsSorted m k v s,
    Above-insert i m k v a,
    Above-trans k i m,
    text_lt-total k i,
  )

  -- A key of a map is above whatever all keys are above.
  pub Above-get :
      (k : Text) (m : Map Text V) (j : Text) (f : V)
      → Above k m
      → get m j ≡ some f
      → text_lt k j ≡ true
  unfolding get
  Above-get k [] j f a h = cc
  Above-get k ((i, w) ∷ m) j f (a, b) h = ground (arith, Above-get k m j f b)

  Above-remove : (j : Text) (m : Map Text V) (k : Text) → Above j m → Above j (remove m k)
  unfolding remove
  Above-remove j [] k a = tt
  Above-remove j ((i, w) ∷ m) k (a, b) = ground (arith, Above-remove j m k b)

  pub remove-IsSorted : (m : Map Text V) (k : Text) → IsSorted m → IsSorted (remove m k)
  unfolding remove
  remove-IsSorted [] k s = tt
  remove-IsSorted ((i, w) ∷ m) k (a, s) =
      ground (arith, remove-IsSorted m k s, Above-remove i m k a)
