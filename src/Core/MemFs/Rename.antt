-- ===== src/Core/MemFs/Rename.antt =====
-- `remove` and the rename branch of `wstat`: what moves, what stays, and what is left behind.
use mathlib.Core.Path.{subst}
use fs.Base.{
  ◌≡◌, ap, [], true, ◌∙◌, ◌≢◌, inl, inr, false, none, some, ◌++◌, arith, if◌then◌else◌, ◌==◌,
  nat_eq, Bool-cases, Option-cases, Text, text_eq, root, starts_with,
}
use fs.Base.Map.{get, Map, remove, get-insert, get-remove}
use fs.Sdk.Error.{ok, FsError, err}
use fs.Core.Paths.{normalize_path, parent_path}
use fs.Core.MemFs.Entry.{MemFile, MemDir, MemEntry, file, dir, MemoryFs, any_key}
use fs.Core.MemFs.Stat.{rename_target, rename_conflict, rename_entry}
use fs.Core.MemFs.Dirs.{remove_path}
use fs.Core.MemFs.Ancestors.{ancestor, not_below_self}
use fs.Core.MemFs.Tree.{IsTree, parent-prefix, any_key-false}

remove-IsTree :
    (q : Text) (m : Map Text MemEntry)
    → IsTree m
    → q ≢ root
    → any_key (λ k. starts_with k (q ++ root)) m ≡ false
    → IsTree (remove m q)
remove-IsTree q m t r a = record {
  rooted = λ g. t.rooted (ground (arith, get-remove m q root));
  normal = λ k g. t.normal k (λ n. g (ground (arith, get-remove m q k)));
  parents = λ k p g e n.
      let there : get m k ≢ none = λ x. g (ground (arith, get-remove m q k)) in
      ground (
        arith,
        get-remove m q p,
        t.parents k p there e,
        parent-prefix k p (t.normal k there) e,
        any_key-false (λ j. starts_with j (q ++ root)) m k a there,
        ap (λ x. starts_with k (x ++ root)),
      );
}

module _ (path : Text) (m : MemoryFs) where
  -- A successful `remove` takes away the entry of the normalized path and no other.
  get-remove_path :
      (j : Text)
      → (remove_path path m).1 ≡ ok tt
      → (get m.entries (normalize_path path) ≢ none)
        × (normalize_path path ≢ root)
        × (get (remove_path path m).0.entries j
            ≡ (if normalize_path path == j then none else get m.entries j))
  unfolding remove_path
  get-remove_path j h = (
    λ g. ground arith,
    λ g. ground arith,
    elim (Option-cases (get m.entries (normalize_path path))) [
      | inl e ↦ ground arith
      | inr (x, e) ↦ ground (arith, get-remove m.entries (normalize_path path) j)
    ],
  )

  -- Removing a directory keeps the tree: the check for children holds back every directory that
  -- is the parent of an entry.
  pub remove_dir-IsTree :
      (d : MemDir)
      → IsTree m.entries
      → get m.entries (normalize_path path) ≡ some (dir d)
      → IsTree (remove_path path m).0.entries
  unfolding remove_path
  remove_dir-IsTree d t g =
      let q = normalize_path path in
      elim (text_eq.dec q root) [
        | yes e ↦ subst IsTree (ground arith) t
        | no n ↦ elim (Bool-cases (any_key (λ k. starts_with k (q ++ root)) m.entries)) [
          | inl a ↦ subst IsTree (ground arith) t
          | inr a ↦ subst IsTree (ground arith) (remove-IsTree q m.entries t n a)
        ]
      ]

  -- Removing a file that is the parent of another entry, which `open` lets happen, breaks the tree.
  pub remove_file_strands :
      (f : MemFile) (k : Text)
      → get m.entries (normalize_path path) ≡ some (file f)
      → normalize_path path ≢ root
      → get m.entries k ≢ none
      → k ≢ normalize_path path
      → parent_path k ≡ some (normalize_path path)
      → ¬ IsTree (remove_path path m).0.entries
  unfolding remove_path
  remove_file_strands f k g r c n p t =
      let q = normalize_path path in
      let gone : (remove_path path m).0.entries ≡ remove m.entries q = ground arith in
      t.parents k q (λ x. ground (arith, ap (λ e. get e k) gone, get-remove m.entries q k)) p
        (ground (arith, ap (λ e. get e q) gone, get-remove m.entries q q))

module _ (path new_name : Text) (m : MemoryFs) where
  -- A rename that succeeds moves the one entry: its new path has it, the old path is free, and
  -- every other path keeps its entry, the paths below the old one too.
  pub get-rename_entry :
      (entry : MemEntry) (j : Text)
      → get m.entries path ≡ some entry
      → (rename_entry path new_name m).1 ≡ ok tt
      → get (rename_entry path new_name m).0.entries j ≡ (
          if rename_target path new_name == j
          then some entry
          else if path == j
          then none
          else get m.entries j)
  unfolding rename_entry
  get-rename_entry entry j g h =
      let taken = remove m.entries path in
      let target = rename_target path new_name in
      elim (Option-cases (get taken target)) [
        | inl e ↦ ground (arith, get-insert taken target entry j, get-remove m.entries path j)
        | inr (x, e) ↦ elim (Option-cases (rename_conflict taken target entry x)) [
          | inl q ↦ ground (
            arith,
            get-insert (remove taken target) target entry j,
            get-remove taken target j,
            get-remove m.entries path j,
          )
          | inr (y, q) ↦ ground arith
        ]
      ]

  -- A rename that fails leaves every lookup as it was.
  rename_entry_fails :
      (e : FsError) (j : Text)
      → (rename_entry path new_name m).1 ≡ err e
      → get (rename_entry path new_name m).0.entries j ≡ get m.entries j
  unfolding rename_entry
  rename_entry_fails e j h = elim (Option-cases (get m.entries path)) [
    | inl n ↦ ground arith
    | inr (entry, g) ↦
        let taken = remove m.entries path in
        ground (arith, get-insert taken path entry j, get-remove m.entries path j)
  ]

  -- A rename that succeeds, from a path that is not empty to another one, leaves the entries of a
  -- directory behind: an entry below the old path, at any depth, stays where it was if it is not
  -- the target, while the old path has no entry any more, so that the entries are no tree.
  pub rename_dir_strands :
      (entry child : MemEntry) (k : Text)
      → get m.entries path ≡ some entry
      → (rename_entry path new_name m).1 ≡ ok tt
      → rename_target path new_name ≢ path
      → path ≢ []
      → get m.entries k ≡ some child
      → k ≢ rename_target path new_name
      → starts_with k (path ++ root) ≡ true
      → (get (rename_entry path new_name m).0.entries k ≡ some child)
        × (get (rename_entry path new_name m).0.entries path ≡ none)
        × (¬ IsTree (rename_entry path new_name m).0.entries)
  rename_dir_strands entry child k g h t e c x b =
      let other : k ≢ path =
        λ q. cc (not_below_self path, ap (λ s. starts_with s (path ++ root)) q, b) in
      let stays : get (rename_entry path new_name m).0.entries k ≡ some child =
        get-rename_entry entry k g h ∙ ground arith in
      let gone : get (rename_entry path new_name m).0.entries path ≡ none =
        get-rename_entry entry path g h ∙ ground arith in
      (stays, gone, λ tree. ancestor path k _ tree e b (λ y. cc (y, stays)) gone)
