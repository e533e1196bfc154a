-- ===== src/Core/MemFs/Tree.antt =====
-- The shape of the tree that `open` and `remove` keep: every entry has its parent.
use mathlib.Core.Path.{subst}
use native.Mathlib.Decide.{ℕ_discrete}
use fs.Core.MemFs.Io.{add_handle}
use fs.Base.{
  ℕ, ◌≡◌, refl, ◌≢◌, ◌⊎◌, inl, inr, true, none, some, [], arith, nat_eq, Bool-cases, Option-cases,
  Text, chars, text_dec, text_eq, root, ap, Bool, false, ◌∷◌, ◌++◌, slash, starts_with,
}
use fs.Base.Map.{get, Map, insert, get-insert}
use fs.Sdk.Error.{FsResult-cases, ok, err, invalid_argument}
use fs.Sdk.Types.{OpenFlags}
use fs.Core.Paths.{normalize_path, parent_path, before_last}
use fs.Core.Paths.Normal.{is_normal, normalize-IsNormal, normalize_of_normal}
use fs.Core.MemFs.Entry.{MemEntry, file, dir, default_file, default_dir, MemoryFs, new, any_key}
use fs.Core.MemFs.Io.{creatable, prepare, truncated, open_file}

-- The root is there, every key is in normal form, and so is the parent of every key.
pub record IsTree (m : Map Text MemEntry) : Type 0 where
  pub rooted : get m root ≢ none
  pub normal : (k : Text) → get m k ≢ none → is_normal k ≡ true
  pub parents : (k p : Text) → get m k ≢ none → parent_path k ≡ some p → get m p ≢ none

-- An entry is added, or takes the place of another, below a parent that is there.
insert-IsTree :
    (m : Map Text MemEntry) (path : Text) (e : MemEntry)
    → IsTree m
    → is_normal path ≡ true
    → ((p : Text) → parent_path path ≡ some p → get m p ≢ none)
    → IsTree (insert m path e)
insert-IsTree m path e t n q = record {
  rooted = λ h. t.rooted (ground (arith, get-insert m path e root));
  normal = λ k h. ground (arith, get-insert m path e k, t.normal k);
  parents =
      λ k p h x g. ground (arith, get-insert m path e k, get-insert m path e p, t.parents k p, q p);
}

parent-nil :
    (kind : Text) (m : Map Text MemEntry) → creatable kind [] m ≡ err (invalid_argument kind)
unfolding creatable parent_path text_dec ℕ_discrete
parent-nil kind m = refl

-- `creatable` lets a normalized path pass that is in normal form and has its parent.
creatable-parent :
    (kind path : Text) (m : Map Text MemEntry)
    → creatable kind (normalize_path path) m ≡ ok tt
    → (is_normal (normalize_path path) ≡ true)
      × ((p : Text) → parent_path (normalize_path path) ≡ some p → get m p ≢ none)
unfolding creatable
creatable-parent kind path m h = (
  normalize-IsNormal path (λ e. cc (h, ap (λ q. creatable kind q m) e, parent-nil kind m)),
  λ p e g. ground arith,
)

-- What `prepare` does to the entries: nothing, or one entry is put at a path that was there or may
-- be created.
abbrev Fits : Text → Map Text MemEntry → Type 0
Fits path m = (get m path ≢ none) ⊎ ((kind : Text) × (creatable kind path m ≡ ok tt))

prepare-cases :
    (now : ℕ) (path : Text) (flags : OpenFlags) (m m' : Map Text MemEntry)
    → prepare now path flags m ≡ ok m'
    → (m ≡ m') ⊎ ((e : MemEntry) × (insert m path e ≡ m') × Fits path m)
unfolding prepare
prepare-cases now path flags m m' h = elim (Bool-cases flags.create) [
  | inr c ↦ inl (ground arith)
  | inl c ↦ elim (Bool-cases flags.directory) [
    | inl d ↦ inr (
      dir (default_dir now),
      ground arith,
      inr (chars "cannot create directory at root", ground arith),
    )
    | inr d ↦ elim (Option-cases (get m path)) [
      | inl g ↦ inr (
        file (default_file now),
        ground arith,
        inr (chars "cannot create file at root", ground arith),
      )
      | inr (e, g) ↦ elim (Bool-cases flags.truncate) [
        | inl t ↦ inr (truncated now e, ground arith, inl (λ n. cc (g, n)))
        | inr t ↦ inl (ground arith)
      ]
    ]
  ]
]

Fits-IsTree :
    (path : Text) (m : Map Text MemEntry) (e : MemEntry)
    → IsTree m
    → Fits (normalize_path path) m
    → IsTree (insert m (normalize_path path) e)
Fits-IsTree path m e t (inl g) = insert-IsTree m _ e t (t.normal _ g) (λ p q. t.parents _ p g q)
Fits-IsTree path m e t (inr (kind, c)) =
    let w = creatable-parent kind path m c in insert-IsTree m _ e t w.0 w.1

module _ (now : ℕ) (path : Text) (flags : OpenFlags) (m : Map Text MemEntry) where
  prepare-IsTree :
      (m' : Map Text MemEntry)
      → IsTree m
      → prepare now (normalize_path path) flags m ≡ ok m'
      → IsTree m'
  prepare-IsTree m' t h = elim (prepare-cases now (normalize_path path) flags m m' h) [
    | inl e ↦ subst IsTree e t
    | inr (x, e, f) ↦ subst IsTree e (Fits-IsTree path m x t f)
  ]

-- `open` keeps the tree, whatever its flags and its outcome.
pub open-IsTree :
    (now : ℕ) (path : Text) (flags : OpenFlags) (m : MemoryFs)
    → IsTree m.entries
    → IsTree (open_file now path flags m).0.entries
unfolding open_file add_handle
open-IsTree now path flags m t =
    elim (FsResult-cases (prepare now (normalize_path path) flags m.entries)) [
      | inl (entries, e) ↦
          let t' = prepare-IsTree now path flags m.entries entries t e in
          elim (Option-cases (get entries (normalize_path path))) [
            | inl g ↦ rw (e, open_file, g) t'
            | inr (x, g) ↦ rw (e, open_file, g) t'
          ]
      | inr (inl (x, e)) ↦ rw (e, open_file) t
      | inr (inr e) ↦ rw (e, open_file) t
    ]

-- The new file system is a tree.
pub new-IsTree : (now : ℕ) → IsTree (new now).entries
unfolding new get insert parent_path text_dec ℕ_discrete
new-IsTree now = record {
  rooted = λ h. cc;
  normal = λ k h. ground arith;
  parents = λ k p h e g. ground arith;
}

before_last-prefix :
    (s t : Text) (c : ℕ) → before_last s c ≡ some t → starts_with s (t ++ c ∷ []) ≡ true
unfolding before_last starts_with
before_last-prefix [] t c h = cc
before_last-prefix (d ∷ s) t c h = elim (Option-cases (before_last s c)) [
  | inl e ↦ ground arith
  | inr (u, e) ↦ ground (arith, before_last-prefix s u c e)
]

-- A key below a directory other than the root has the directory's path and a slash in front.
pub parent-prefix :
    (k p : Text)
    → is_normal k ≡ true
    → parent_path k ≡ some p
    → p ≢ root
    → starts_with k (p ++ root) ≡ true
unfolding parent_path
parent-prefix k p n h r = elim (Option-cases (before_last k slash)) [
  | inl e ↦ ground (arith, normalize_of_normal k n)
  | inr (t, e) ↦ ground (arith, normalize_of_normal k n, before_last-prefix k t slash e)
]

pub any_key-false :
    (p : Text → Bool) (m : Map Text MemEntry) (k : Text)
    → any_key p m ≡ false
    → get m k ≢ none
    → p k ≡ false
unfolding any_key get
any_key-false p [] k h g = absurd (g refl)
any_key-false p ((j, e) ∷ m) k h g = ground (arith, any_key-false p m k, ap p)
