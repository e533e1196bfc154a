-- ===== src/Plugins/PageFs/Names.antt =====
-- Paths of plugins/pagefs/src/provider.rs, and their way through the directories.
use fs.Base.{
  ℕ, not, Option, none, some, List, [], ◌∷◌, eqb, if◌then◌else◌, ◌==◌, nat_eq, Text, chars, text_eq,
  slash, root, is_empty, trim_end_matches,
}
use fs.Sdk.Error.{
  ok, FsError, FsResult, err, not_found, invalid_argument, not_directory, internal, ◌>>=◌,
}
use fs.Core.Paths.{before_last, after_last}
use fs.Plugins.PageFs.Kv.{KvBackend}
use fs.Plugins.PageFs.Node.{root_inode, Inode, is_directory, Serde}
use fs.Plugins.PageFs.Store.{load_inode, lookup}

unfoldable pub normalize_path : Text → Text
unfolding trim_end_matches
normalize_path path =
    let path' = if is_empty path then root else path in
    if path' == root then root else trim_end_matches path' slash

-- `str::split`
abbrev push_char : ℕ → List Text → List Text
push_char d [] = (d ∷ []) ∷ []
push_char d (part ∷ parts) = (d ∷ part) ∷ parts

unfoldable pub split : Text → ℕ → List Text
split [] c = [] ∷ []
split (d ∷ s) c = let rest = split s c in if eqb d c then [] ∷ rest else push_char d rest

unfoldable pub non_empty : List Text → List Text
non_empty [] = []
non_empty (part ∷ parts) = let rest = non_empty parts in if is_empty part then rest else part ∷ rest

unfoldable pub parts_of : Text → List Text
unfolding split non_empty
parts_of path = non_empty (split path slash)

-- `rfind('/')`, and what stands before it.
unfoldable pub parent_path : Text → Option Text
unfolding before_last trim_end_matches
parent_path path =
    if path == root then none else elim (before_last (trim_end_matches path slash) slash) [
      | none ↦ none
      | some parent ↦ some (if is_empty parent then root else parent)
    ]

abbrev pub or_error {ℓ} : {A : Type ℓ} → FsError → Option A → FsResult A
or_error e none = err e
or_error e (some a) = ok a

-- `rsplit_once('/')`, or an empty parent.
unfoldable pub split_last : Text → Text × Text
unfolding before_last after_last
split_last path = elim (before_last path slash) [
  | none ↦ ([], path)
  | some parent ↦ (parent, after_last path slash)
]

module _ (K : KvBackend) (S : Serde) where
  open K use {Kv}

  -- The loop over the parts: each but the last must be a directory.
  unfoldable pub resolve_parts : Text → Kv → List Text → ℕ → FsResult ℕ
  resolve_parts path kv [] current_inode = ok current_inode
  resolve_parts path kv (part ∷ []) current_inode =
      or_error (not_found path) (lookup K S current_inode part kv)
  resolve_parts path kv (part ∷ next ∷ parts) current_inode =
      elim (lookup K S current_inode part kv) [
        | none ↦ err (not_found path)
        | some child_inode ↦ elim (load_inode K S child_inode kv) [
          | none ↦ err (not_found path)
          | some inode ↦
              let rest = resolve_parts path kv (next ∷ parts) child_inode in
              if is_directory inode then rest else err (not_directory part)
        ]
      ]

  unfoldable pub resolve_path : Text → Kv → FsResult (ℕ × Inode)
  unfolding resolve_parts
  resolve_path path kv =
      let path' = normalize_path path in
      if path' == root
      then (or_error (internal (chars "root inode missing")) (load_inode K S root_inode kv)
          >>= λ inode. ok (root_inode, inode))
      else (resolve_parts path' kv (parts_of path') root_inode >>= λ inode_id.
          or_error (not_found path') (load_inode K S inode_id kv) >>= λ inode. ok (inode_id, inode))

  unfoldable pub resolve_parent : Text → Kv → FsResult (ℕ × Text)
  resolve_parent path kv =
      let path' = normalize_path path in
      if path' == root
      then err (invalid_argument (chars "cannot get parent of root"))
      else (let (parent, name) = split_last path' in
          let parent_path' = if is_empty parent then root else parent in
          resolve_path parent_path' kv >>= λ (r : ℕ × Inode).
          if not (is_directory r.1) then err (not_directory parent_path') else ok (r.0, name))
