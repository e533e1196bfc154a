-- ===== src/Plugins/PageFs/Store.antt =====
-- The private methods of `PageFsProvider` in plugins/pagefs/src/provider.rs that read and write the
-- store: superblock, inodes, directory entries and pages.
use fs.Base.{
  ℕ, ◌+◌, ◌-◌, ◌/◌, ◌%◌, ◌^◌, Option, none, some, List, [], ◌∷◌, ltb, eqb, if◌then◌else◌, nat_eq,
  length, resize, drop, Text, text_eq, replicate,
}
use fs.Base.Words.{to_be_bytes, from_be_bytes}
use fs.Base.Utf8.{as_bytes, from_utf8}
use fs.Base.Map.{Map, is_some}
use fs.Sdk.Provider.{Bytes}
use fs.Plugins.PageFs.Keys
use fs.Plugins.PageFs.Kv.{KvBackend}
use fs.Plugins.PageFs.Node.{
  page_size, root_inode, Superblock, new_superblock, Inode, new_directory, Serde,
}

-- Nothing, where there is nothing to decode.
abbrev pub decoded {ℓ} : {A : Type ℓ} → (Bytes → Option A) → Option Bytes → Option A
decoded f none = none
decoded f (some value) = f value

abbrev pub or_default {ℓ} : {A : Type ℓ} → A → Option A → A
or_default d none = d
or_default d (some a) = a

unfoldable pub pages_needed : ℕ → ℕ
pages_needed size = if eqb size 0 then 0 else (size + page_size - 1) % 2 ^ 64 / page_size

-- One entry of a directory: the name behind the prefix, and the inode number.
unfoldable pub entry_of : ℕ → Bytes × Bytes → Option (Text × ℕ)
entry_of skip (key, value) = elim (from_utf8 (drop skip key)) [
  | none ↦ none
  | some name ↦ elim (from_be_bytes value) [ none ↦ none | some child ↦ some (name, child) ]
]

unfoldable pub entries_of : ℕ → Map Bytes Bytes → List (Text × ℕ)
unfolding entry_of
entries_of skip [] = []
entries_of skip (e ∷ m) =
    let rest = entries_of skip m in elim (entry_of skip e) [ none ↦ rest | some x ↦ x ∷ rest ]

abbrev pub zero_page : Bytes
zero_page = replicate page_size 0

module _ (K : KvBackend) (S : Serde) where
  open K use {Kv}

  unfoldable pub load_superblock : Kv → Superblock
  load_superblock kv =
      or_default new_superblock (decoded S.superblock_from_slice (K.get Keys.superblock kv))

  unfoldable pub save_superblock : Superblock → Kv → Kv
  save_superblock sb kv = K.set Keys.superblock (S.superblock_to_vec sb) kv

  unfoldable pub alloc_inode : Kv → Kv × ℕ
  alloc_inode kv =
      let sb = load_superblock kv in
      (save_superblock (record sb { next_inode = (sb.next_inode + 1) % 2 ^ 64 }) kv, sb.next_inode)

  unfoldable pub load_inode : ℕ → Kv → Option Inode
  load_inode inode_id kv = decoded S.inode_from_slice (K.get (Keys.inode inode_id) kv)

  unfoldable pub save_inode : Inode → Kv → Kv
  save_inode inode kv = K.set (Keys.inode inode.id) (S.inode_to_vec inode) kv

  unfoldable pub delete_inode : ℕ → Kv → Kv
  delete_inode inode_id kv = K.delete (Keys.inode inode_id) kv

  unfoldable pub lookup : ℕ → Text → Kv → Option ℕ
  lookup parent_inode name kv =
      decoded from_be_bytes (K.get (Keys.dir_entry parent_inode (as_bytes name)) kv)

  unfoldable pub link : ℕ → Text → ℕ → Kv → Kv
  link parent_inode name child_inode kv =
      K.set (Keys.dir_entry parent_inode (as_bytes name)) (to_be_bytes child_inode) kv

  unfoldable pub unlink : ℕ → Text → Kv → Kv
  unlink parent_inode name kv = K.delete (Keys.dir_entry parent_inode (as_bytes name)) kv

  unfoldable pub list_dir : ℕ → Kv → List (Text × ℕ)
  unfolding entries_of
  list_dir parent_inode kv =
      let prefix = Keys.dir_prefix parent_inode in entries_of (length prefix) (K.scan prefix kv)

  unfoldable pub read_page : ℕ → ℕ → Kv → Option Bytes
  read_page inode_id page_num kv = K.get (Keys.page inode_id page_num) kv

  unfoldable pub write_page : ℕ → ℕ → Bytes → Kv → Kv
  write_page inode_id page_num bytes kv =
      K.set (Keys.page inode_id page_num)
        (if ltb (length bytes) page_size then resize bytes page_size 0 else bytes) kv

  unfoldable pub delete_all : Map Bytes Bytes → Kv → Kv
  delete_all [] kv = kv
  delete_all ((key, value) ∷ m) kv = delete_all m (K.delete key kv)

  unfoldable pub delete_pages : ℕ → Kv → Kv
  unfolding delete_all
  delete_pages inode_id kv = delete_all (K.scan (Keys.page_prefix inode_id) kv) kv

  unfoldable pub init_filesystem : ℕ → Kv → Kv
  init_filesystem now kv =
      if is_some (K.get Keys.superblock kv)
      then (if is_some (load_inode root_inode kv)
          then kv
          else save_inode (new_directory now root_inode 0o755) kv)
      else save_inode (new_directory now root_inode 0o755) (save_superblock new_superblock kv)
