-- ===== src/Sh9/Glob/Matching.antt =====
-- `match_glob_pattern` of sh9/src/eval/utils.rs against what patterns mean.
use fs.Base.{
  ℕ, zero, suc, ◌≤◌, ◌≡◌, refl, Bool, true, false, List, [], ◌∷◌, arith, ltb, if◌then◌else◌, Text,
  length, Bool-cases, inl, inr, is_empty,
}
use fs.Sh9.Outcome.{Outcome, ok}
use fs.Sh9.Glob.{
  Item, many, one, class, literal, Ranges, class_loop, token, accepts, star_loop, round,
  match_glob_pattern,
}

-- The items of a pattern.
unfoldable pub items : ℕ → Text → List Item
unfolding token
items fuel [] = []
items zero (c ∷ pattern) = []
items (suc fuel) (c ∷ pattern) = let (item, rest) = token c pattern in item ∷ items fuel rest

-- A name matches items: `*` stands for any characters, every other item for one that it accepts.
pub data Matches : List Item → Text → Type 0 where
  nothing : Matches [] []
  no_more : {is : List Item} {s : Text} → Matches is s → Matches (many ∷ is) s
  more : {is : List Item} {c : ℕ} {s : Text} → Matches (many ∷ is) s → Matches (many ∷ is) (c ∷ s)
  next :
      {i : Item} {is : List Item} {c : ℕ} {s : Text}
      → (i ≡ many → ⊥)
      → accepts i c ≡ true
      → Matches is s
      → Matches (i ∷ is) (c ∷ s)

-- All characters have one byte.
abbrev pub IsAscii : Text → Type 0
IsAscii [] = Unit
IsAscii (c ∷ s) = (ltb c 0x80 ≡ true) × IsAscii s

-- The run gives an answer, and it says whether `P` holds.
abbrev pub Decides {ℓ} : Type ℓ → Outcome Bool → Type ℓ
Decides P r = (b : Bool) × (r ≡ ok b) × (b ≡ true → P) × (P → b ≡ true)

length-class_loop :
    (first negated : Bool) (ranges : Ranges) (s : Text)
    → length (class_loop first negated ranges s).1 ≤ length s
unfolding class_loop
length-class_loop first negated ranges [] = omega arith
length-class_loop first negated ranges (c ∷ []) = ground arith
length-class_loop first negated ranges (c ∷ d ∷ []) = ground (
  arith,
  length-class_loop false true ranges (d ∷ []),
  length-class_loop false negated ((c, c) ∷ ranges) (d ∷ []),
)
length-class_loop first negated ranges (c ∷ d ∷ e ∷ s) = ground (
  arith,
  length-class_loop false true ranges (d ∷ e ∷ s),
  length-class_loop false negated ((c, c) ∷ ranges) (d ∷ e ∷ s),
  length-class_loop false negated ((c, e) ∷ ranges) s,
)

length-token : (c : ℕ) (s : Text) → length (token c s).1 ≤ length s
unfolding token
length-token c s = ground (arith, length-class_loop true false [] s)

-- One step of the loop: an end of the name that matches, or the rest of the name.
star_step :
    (is : List Item) (matches : Text → Outcome Bool) (c : ℕ) (name : Text)
    → ltb c 0x80 ≡ true
    → Decides (Matches is (c ∷ name)) (matches (c ∷ name))
    → Decides (Matches (many ∷ is) name) (star_loop matches name)
    → Decides (Matches (many ∷ is) (c ∷ name)) (star_loop matches (c ∷ name))
unfolding star_loop
star_step is matches c name a (true, e, sound, complete) rest =
    (true, rw (star_loop, e) refl, (λ h. no_more (sound refl)), (λ m. refl))
star_step is matches c name a (false, e, sound, complete) (b, f, found, all) =
    (b, rw (star_loop, e, a) f, (λ h. more (found h)), later)
  where
    later : Matches (many ∷ is) (c ∷ name) → b ≡ true
    later (no_more m) = absurd (cc (complete m))
    later (more m) = all m
    later (next h k m) = absurd (h refl)

-- The loop behind a `*` finds an end of the name that the rest of the pattern matches.
star_loop-Decides :
    (is : List Item) (matches : Text → Outcome Bool)
    → ((s : Text) → IsAscii s → Decides (Matches is s) (matches s))
    → (name : Text) → IsAscii name
    → Decides (Matches (many ∷ is) name) (star_loop matches name)
unfolding star_loop
star_loop-Decides is matches d [] a =
    let (b, e, sound, complete) = d [] a in
    (b, e, (λ h. no_more (sound h)), (λ m. complete (many_empty m)))
  where
    many_empty : Matches (many ∷ is) [] → Matches is []
    many_empty (no_more m) = m
star_loop-Decides is matches d (c ∷ name) (a, as_) =
    star_step is matches c name a (d (c ∷ name) (a, as_)) (star_loop-Decides is matches d name as_)

-- `*` at the end of a pattern matches every name.
many-all : (name : Text) → Matches (many ∷ []) name
many-all [] = no_more nothing
many-all (c ∷ name) = more (many-all name)

no_name : (i : Item) (is : List Item) → (i ≡ many → ⊥) → Matches (i ∷ is) [] → false ≡ true
no_name i is n (no_more m) = absurd (n refl)

first_name :
    (i : Item) (is : List Item) (c : ℕ) (s : Text)
    → (i ≡ many → ⊥)
    → Matches (i ∷ is) (c ∷ s)
    → (accepts i c ≡ true) × Matches is s
first_name i is c s n (no_more m) = absurd (n refl)
first_name i is c s n (more m) = absurd (n refl)
first_name i is c s n (next h k m) = (k, m)

-- A round with an item that stands for one character, on a name that has one.
one-Decides :
    (i : Item) (is : List Item) (c : ℕ) (s : Text) (r : Outcome Bool)
    → (i ≡ many → ⊥)
    → Decides (Matches is s) r
    → Decides (Matches (i ∷ is) (c ∷ s)) (if accepts i c then r else ok false)
one-Decides i is c s r n (b, e, sound, complete) = elim (Bool-cases (accepts i c)) [
  | inl k ↦ (b, rw k e, (λ h. next n k (sound h)), (λ m. complete (first_name i is c s n m).1))
  | inr k ↦ (false, rw k refl, (λ h. cc), (λ m. absurd (cc ((first_name i is c s n m).0, k))))
]

none-Decides :
    (i : Item) (is : List Item) → (i ≡ many → ⊥) → Decides (Matches (i ∷ is) []) (ok false)
none-Decides i is n = (false, refl, (λ h. cc), no_name i is n)

empty-Decides : (name : Text) → Decides (Matches [] name) (ok (is_empty name))
empty-Decides [] = (true, refl, (λ h. nothing), (λ m. refl))
empty-Decides (c ∷ s) = (false, refl, (λ h. cc), too_long)
  where
    too_long : Matches [] (c ∷ s) → false ≡ true
    too_long m = elim m [ ]

round-Decides :
    (rest : Text → Text → Outcome Bool) (f : ℕ) (i : Item) (pattern name : Text)
    → ((s : Text) → IsAscii s → Decides (Matches (items f pattern) s) (rest pattern s))
    → IsAscii name
    → Decides (Matches (i ∷ items f pattern) name) (round rest i pattern name)
unfolding round items
round-Decides rest f many [] name d a = (true, refl, (λ h. many-all name), (λ m. refl))
round-Decides rest f many (p ∷ pattern) name d a =
    star_loop-Decides (items f (p ∷ pattern)) (rest (p ∷ pattern)) d name a
round-Decides rest f one pattern [] d a = none-Decides one _ (λ e. cc)
round-Decides rest f one pattern (c ∷ s) d (a, as_) = one-Decides one _ c s _ (λ e. cc) (d s as_)
round-Decides rest f (class negated ranges) pattern [] d a = none-Decides _ _ (λ e. cc)
round-Decides rest f (class negated ranges) pattern (c ∷ s) d (a, as_) =
    one-Decides (class negated ranges) _ c s _ (λ e. cc) (d s as_)
round-Decides rest f (literal l) pattern [] d a = none-Decides _ _ (λ e. cc)
round-Decides rest f (literal l) pattern (c ∷ s) d (a, as_) =
    one-Decides (literal l) _ c s _ (λ e. cc) (d s as_)

-- With a unit of fuel for each character of the pattern, `match_glob_pattern` gives an answer for every
-- name of ASCII characters, and it is whether the name matches the items of the pattern.
pub match_glob_pattern_lem :
    (f : ℕ) (pattern name : Text)
    → length pattern ≤ f
    → IsAscii name
    → Decides (Matches (items f pattern) name) (match_glob_pattern f pattern name)
unfolding match_glob_pattern items
match_glob_pattern_lem f [] name h a = empty-Decides name
match_glob_pattern_lem zero (c ∷ pattern) name h a = absurd (omega arith)
match_glob_pattern_lem (suc f) (c ∷ pattern) name h a =
    round-Decides (match_glob_pattern f) f (token c pattern).0 (token c pattern).1 name
      (λ s b.
        match_glob_pattern_lem f (token c pattern).1 s (omega (arith, length-token c pattern)) b)
      a
