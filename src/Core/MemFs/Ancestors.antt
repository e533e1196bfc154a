-- ===== src/Core/MemFs/Ancestors.antt =====
-- In the tree of core/src/providers/memfs/mod.rs every path above an entry has an entry too.
use fs.Base.{
  ℕ, zero, suc, ◌≤◌, ◌<◌, ◌≡◌, ◌≢◌, ◌⊎◌, refl, ap, ◌∙◌, inl, inr, true, false, none, some, [], ◌∷◌,
  ◌++◌, arith, ◌==◌, Text, text_eq, slash, root, starts_with, length, Option-cases, ne→false,
}
use fs.Base.Map.{get, Map}
use fs.Core.Paths.{before_last, parent_path, normalize_path}
use fs.Core.Paths.Normal.{is_normal, normalize_of_normal}
use fs.Core.MemFs.Entry.{MemEntry}
use fs.Core.MemFs.Tree.{IsTree}

before_last-found :
    (p k : Text) → starts_with k (p ++ root) ≡ true → (t : Text) × (before_last k slash ≡ some t)
unfolding before_last starts_with
before_last-found [] [] h = cc
before_last-found [] (c ∷ k) h = elim (Option-cases (before_last k slash)) [
  | inl e ↦ ([], ground (arith, e, h))
  | inr (t, e) ↦ (c ∷ t, rw e refl)
]
before_last-found (d ∷ p) [] h = cc
before_last-found (d ∷ p) (c ∷ k) h =
    let (t, e) = before_last-found p k (ground arith) in (c ∷ t, rw e refl)

before_last-shorter : (k t : Text) → before_last k slash ≡ some t → length t < length k
unfolding before_last
before_last-shorter [] t h = cc
before_last-shorter (c ∷ k) t h = elim (Option-cases (before_last k slash)) [
  | inl e ↦ ground (arith, e, h)
  | inr (u, e) ↦ ground (arith, e, h, before_last-shorter k u e)
]

-- What stands before the last `/` of a path below `p` is `p` or below it.
before_last-below :
    (p k t : Text)
    → starts_with k (p ++ root) ≡ true
    → before_last k slash ≡ some t
    → (t ≡ p) ⊎ (starts_with t (p ++ root) ≡ true)
unfolding before_last starts_with
before_last-below [] [] t h e = cc
before_last-below [] (c ∷ k) t h e = elim (Option-cases (before_last k slash)) [
  | inl f ↦ inl (ground (arith, e, f, h))
  | inr (u, f) ↦ inr (ground (arith, e, f, h))
]
before_last-below (d ∷ p) [] t h e = cc
before_last-below (d ∷ p) (c ∷ k) t h e =
    let (u, f) = before_last-found p k (ground arith) in
    let same : c ∷ u ≡ t = ground (arith, e, f) in
    elim (before_last-below p k u (ground arith) f) [
      | inl q ↦ inl (ground (arith, same, q, h))
      | inr q ↦ inr (ground (arith, same, q, h))
    ]

pub not_below_self : (p : Text) → starts_with p (p ++ root) ≡ false
unfolding starts_with
not_below_self [] = refl
not_below_self (c ∷ p) = ground (arith, not_below_self p)

-- The parent of a path below `p`.
parent-below :
    (p k : Text)
    → p ≢ []
    → is_normal k ≡ true
    → starts_with k (p ++ root) ≡ true
    → (q : Text) × (parent_path k ≡ some q)
      × ((q ≡ p) ⊎ (starts_with q (p ++ root) ≡ true))
      × (length q < length k)
unfolding parent_path starts_with
parent-below [] k n m h = absurd (n refl)
parent-below (d ∷ []) (c ∷ []) n m h = absurd (ground (arith, h))
parent-below (d ∷ e ∷ p) (c ∷ []) n m h = absurd (ground (arith, h))
parent-below (d ∷ p) [] n m h = absurd (ground (arith, h))
parent-below (d ∷ p) (c ∷ c' ∷ k) n m h =
    let (t, f) = before_last-found (d ∷ p) (c ∷ c' ∷ k) h in
    let shorter = before_last-shorter (c ∷ c' ∷ k) t f in
    let same = normalize_of_normal (c ∷ c' ∷ k) m in
    let no_root : (c ∷ c' ∷ k == root) ≡ false = ne→false (c ∷ c' ∷ k) root (λ e. cc) in
    elim (before_last-below (d ∷ p) (c ∷ c' ∷ k) t h f) [
      | inl q ↦
          (d ∷ p, rw (same, no_root, f, q) refl, inl refl, omega (arith, shorter, ap length q))
      | inr q ↦ below t f shorter same no_root q
    ]
  where
    below :
        (t : Text)
        → before_last (c ∷ c' ∷ k) slash ≡ some t
        → length t < length (c ∷ c' ∷ k)
        → normalize_path (c ∷ c' ∷ k) ≡ c ∷ c' ∷ k
        → (c ∷ c' ∷ k == root) ≡ false
        → starts_with t (d ∷ p ++ root) ≡ true
        → (q : Text) × (parent_path (c ∷ c' ∷ k) ≡ some q)
          × ((q ≡ d ∷ p) ⊎ (starts_with q (d ∷ p ++ root) ≡ true))
          × (length q < length (c ∷ c' ∷ k))
    below [] f s same r q = absurd (ground (arith, q))
    below (b ∷ t) f s same r q = (b ∷ t, rw (same, r, f) refl, inr q, s)

-- Where there is an entry below `p`, there is one at `p`.
ancestor_within :
    (n : ℕ) (p k : Text) (m : Map Text MemEntry)
    → length k ≤ n
    → IsTree m
    → p ≢ []
    → starts_with k (p ++ root) ≡ true
    → get m k ≢ none
    → get m p ≢ none
ancestor_within zero p k m l tree e h g =
    let (q, f, below, s) = parent-below p k e (tree.normal k g) h in absurd (omega arith)
ancestor_within (suc n) p k m l tree e h g =
    let (q, f, below, s) = parent-below p k e (tree.normal k g) h in
    let there : get m q ≢ none = tree.parents k q g f in
    elim below [
      | inl same ↦ λ x. there (ap (get m) same ∙ x)
      | inr deeper ↦ ancestor_within n p q m (omega arith) tree e deeper there
    ]

pub ancestor :
    (p k : Text) (m : Map Text MemEntry)
    → IsTree m
    → p ≢ []
    → starts_with k (p ++ root) ≡ true
    → get m k ≢ none
    → get m p ≢ none
ancestor p k m tree e h g = ancestor_within (length k) p k m (omega arith) tree e h g
