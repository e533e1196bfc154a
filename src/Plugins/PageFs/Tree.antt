-- ===== src/Plugins/PageFs/Tree.antt =====
-- `with_config`, `readdir` and `remove` of `PageFsProvider` in plugins/pagefs/src/provider.rs.
use fs.Base.{
  ℕ, Bool, not, none, some, List, [], ◌∷◌, ◌++◌, if◌then◌else◌, ◌==◌, nat_eq, Text, chars, text_eq,
  root,
}
use fs.Sdk.Error.{
  ok, FsResult, err, permission_denied, not_directory, directory_not_empty, panic, ◌>>=◌,
}
use fs.Sdk.Types.{FileInfo}
use fs.Core.MemFs.Dirs.{sort_by_path}
use fs.Plugins.PageFs.Kv.{KvBackend}
use fs.Plugins.PageFs.Node
use fs.Plugins.PageFs.Node.{Inode, Serde}
use fs.Plugins.PageFs.Store.{
  load_inode, delete_inode, unlink, list_dir, delete_pages, init_filesystem,
}
use fs.Plugins.PageFs.Names.{normalize_path, resolve_path, resolve_parent}
use fs.Plugins.PageFs.Files.{PageFs, file_info}

abbrev pub is_empty_list {ℓ} : {A : Type ℓ} → List A → Bool
is_empty_list [] = Bool.true
is_empty_list (x ∷ xs) = Bool.false

-- A child of the directory at `path`.
unfoldable pub child_path : Text → Text → Text
child_path path name = if path == root then root ++ name else path ++ root ++ name

module _ (K : KvBackend) (S : Serde) where
  open K use {Kv}

  unfoldable pub with_config : ℕ → Kv → ℕ → ℕ → PageFs K
  with_config now kv uid gid = record {
    kv = init_filesystem K S now kv;
    handles = [];
    next_handle = 1;
    uid = uid;
    gid = gid;
  }

  unfoldable pub child_infos : ℕ → ℕ → Text → Kv → List (Text × ℕ) → List FileInfo
  child_infos uid gid path kv [] = []
  child_infos uid gid path kv ((name, child_inode_id) ∷ entries) =
      let rest = child_infos uid gid path kv entries in
      elim (load_inode K S child_inode_id kv) [
        | none ↦ rest
        | some child_inode ↦ file_info uid gid (child_path path name) child_inode ∷ rest
      ]

  unfoldable pub readdir : Text → PageFs K → FsResult (List FileInfo)
  unfolding child_infos
  readdir path m =
      let path' = normalize_path path in
      resolve_path K S path' m.kv >>= λ (r : ℕ × Inode).
      if not (Node.is_directory r.1)
      then err (not_directory path')
      else ok (sort_by_path (child_infos m.uid m.gid path' m.kv (list_dir K S r.0 m.kv)))

  -- The last two steps of `remove`: the name and the inode go, unless the parent is not found.
  unfoldable pub remove_entry : Text → ℕ → Kv → Kv × FsResult (Unit {0})
  remove_entry path inode_id kv = elim (resolve_parent K S path kv) [
    | err e ↦ (kv, err e)
    | panic ↦ (kv, panic)
    | ok (parent_inode, name) ↦ (delete_inode K S inode_id (unlink K S parent_inode name kv), ok tt)
  ]

  unfoldable pub remove_kv : Text → Kv → Kv × FsResult (Unit {0})
  unfolding remove_entry
  remove_kv path kv =
      if path == root
      then (kv, err (permission_denied (chars "cannot remove root")))
      else elim (resolve_path K S path kv) [
        | err e ↦ (kv, err e)
        | panic ↦ (kv, panic)
        | ok (inode_id, inode) ↦
            if Node.is_directory inode
            then (if not (is_empty_list (list_dir K S inode_id kv))
                then (kv, err (directory_not_empty path))
                else remove_entry path inode_id kv)
            else remove_entry path inode_id (delete_pages K S inode_id kv)
      ]

  unfoldable pub remove : Text → PageFs K → PageFs K × FsResult (Unit {0})
  unfolding remove_kv
  remove path m = let (kv, r) = remove_kv (normalize_path path) m.kv in (record m { kv = kv }, r)
