-- ===== src/Base/Ranges.antt =====
-- `BTreeMap::range` and `take_while` on the keys of a prefix.
use mathlib.Core.Path.{◌≡◌, refl, ◌∙◌}
use mathlib.Core.Logic.{inl, inr}
use mathlib.Core.Bool.{true, false}
use mathlib.Core.Option.{none}
use mathlib.Core.List.{[], ◌∷◌}
use native.Mathlib.Omega.{arith}
use fs.Base.Tests.{if◌then◌else◌, Option-cases}
use fs.Base.Texts.{Text, text_eq, starts_with}
use fs.Base.Map.{Map, get}
use fs.Base.Order.{text_lt, text_lt-prefix, Above, IsSorted, Above-get}

-- The keys of a prefix stand together.
prefix_between :
    (p j k : Text)
    → text_lt j p ≡ false
    → text_lt j k ≡ true
    → starts_with k p ≡ true
    → starts_with j p ≡ true
unfolding text_lt starts_with
prefix_between [] j k h l s = refl
prefix_between (c ∷ p) [] k h l s = cc
prefix_between (c ∷ p) (d ∷ j) [] h l s = cc
prefix_between (c ∷ p) (d ∷ j) (e ∷ k) h l s = ground (arith, prefix_between p j k)

module _ {V : Type 0} where
  -- `range(prefix..)`
  unfoldable pub range_from : Text → Map Text V → Map Text V
  range_from prefix [] = []
  range_from prefix ((k, v) ∷ m) =
      let rest = range_from prefix m in if text_lt k prefix then rest else (k, v) ∷ rest

  -- `take_while(|(k, _)| k.starts_with(prefix))`
  unfoldable pub take_prefixed : Text → Map Text V → Map Text V
  take_prefixed prefix [] = []
  take_prefixed prefix ((k, v) ∷ m) =
      let rest = take_prefixed prefix m in if starts_with k prefix then (k, v) ∷ rest else []

  range_from-get :
      (p : Text) (m : Map Text V) (k : Text)
      → get (range_from p m) k ≡ (if text_lt k p then none else get m k)
  unfolding get range_from
  range_from-get p [] k = ground arith
  range_from-get p ((i, v) ∷ m) k = ground (arith, range_from-get p m k)

  Above-range_from : (p j : Text) (m : Map Text V) → Above j m → Above j (range_from p m)
  unfolding range_from
  Above-range_from p j [] a = tt
  Above-range_from p j ((i, v) ∷ m) (a, b) = ground (arith, Above-range_from p j m b)

  range_from-IsSorted : (p : Text) (m : Map Text V) → IsSorted m → IsSorted (range_from p m)
  unfolding range_from
  range_from-IsSorted p [] s = tt
  range_from-IsSorted p ((i, v) ∷ m) (a, s) =
      ground (arith, range_from-IsSorted p m s, Above-range_from p i m a)

  -- No key of the map is before `p`.
  abbrev From : Text → Map Text V → Type 0
  From p [] = Unit
  From p ((k, v) ∷ m) = (text_lt k p ≡ false) × From p m

  range_from-From : (p : Text) (m : Map Text V) → From p (range_from p m)
  unfolding range_from
  range_from-From p [] = tt
  range_from-From p ((i, v) ∷ m) = ground (arith, range_from-From p m)

  take_prefixed-get :
      (p : Text) (m : Map Text V) (k : Text)
      → IsSorted m
      → From p m
      → get (take_prefixed p m) k ≡ (if starts_with k p then get m k else none)
  unfolding get take_prefixed
  take_prefixed-get p [] k s f = ground arith
  take_prefixed-get p ((i, v) ∷ m) k (a, s) (b, f) = elim (Option-cases (get m k)) [
    | inl g ↦ ground (arith, take_prefixed-get p m k s f, g)
    | inr (w, g) ↦
        ground
          (arith, take_prefixed-get p m k s f, g, prefix_between p i k b (Above-get i m k w a g))
  ]

  -- The keys of a prefix are found in their range.
  pub range-get :
      (p : Text) (m : Map Text V) (k : Text)
      → IsSorted m
      → get (take_prefixed p (range_from p m)) k ≡ (if starts_with k p then get m k else none)
  range-get p m k s =
      take_prefixed-get p (range_from p m) k (range_from-IsSorted p m s) (range_from-From p m)
      ∙ ground (arith, range_from-get p m k, text_lt-prefix k p)

  -- The entries of the keys with a prefix.
  abbrev pub prefixed : Text → Map Text V → Map Text V
  prefixed prefix [] = []
  prefixed prefix ((k, v) ∷ m) =
      let rest = prefixed prefix m in if starts_with k prefix then (k, v) ∷ rest else rest

  prefixed-none :
      (p j : Text) (m : Map Text V)
      → Above j m
      → text_lt j p ≡ false
      → starts_with j p ≡ false
      → prefixed p m ≡ []
  prefixed-none p j [] a h s = refl
  prefixed-none p j ((k, v) ∷ m) (a, b) h s =
      ground (arith, prefixed-none p j m b h s, prefix_between p j k h a)

  take_prefixed-prefixed :
      (p : Text) (m : Map Text V) → IsSorted m → From p m → take_prefixed p m ≡ prefixed p m
  unfolding take_prefixed
  take_prefixed-prefixed p [] s f = refl
  take_prefixed-prefixed p ((k, v) ∷ m) (a, s) (b, f) =
      ground (arith, take_prefixed-prefixed p m s f, prefixed-none p k m a b)

  range_from-prefixed : (p : Text) (m : Map Text V) → prefixed p (range_from p m) ≡ prefixed p m
  unfolding range_from
  range_from-prefixed p [] = refl
  range_from-prefixed p ((k, v) ∷ m) = ground (arith, range_from-prefixed p m, text_lt-prefix k p)

  -- The walk over the range of a prefix finds the entries with the prefix and no other.
  pub range-prefixed :
      (p : Text) (m : Map Text V) → IsSorted m → take_prefixed p (range_from p m) ≡ prefixed p m
  range-prefixed p m s =
      take_prefixed-prefixed p (range_from p m) (range_from-IsSorted p m s) (range_from-From p m)
      ∙ range_from-prefixed p m
