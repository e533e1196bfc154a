-- ===== src/Plugins/PageFs/Changes.antt =====
-- `wstat` and `rename` of `PageFsProvider` in plugins/pagefs/src/provider.rs.
use fs.Base.{
  ℕ, zero, suc, ◌+◌, ◌-◌, ◌%◌, max, not, Option, none, some, ltb, if◌then◌else◌, ◌==◌, nat_eq,
  length, replicate, overwrite, Text, text_eq, root, starts_with,
}
use fs.Sdk.Error.{ok, FsResult, err, not_directory, is_directory, directory_not_empty, panic}
use fs.Sdk.Types.{StatChanges}
use fs.Sdk.Provider.{Bytes}
use fs.Plugins.PageFs.Keys
use fs.Plugins.PageFs.Kv.{KvBackend}
use fs.Plugins.PageFs.Node
use fs.Plugins.PageFs.Node.{page_size, Inode, systemtime_to_timestamp, touch_mtime, Serde}
use fs.Plugins.PageFs.Store.{
  pages_needed, save_inode, delete_inode, link, unlink, list_dir, read_page, write_page,
  delete_pages, zero_page, or_default,
}
use fs.Plugins.PageFs.Names.{normalize_path, parent_path, resolve_path, resolve_parent}
use fs.Plugins.PageFs.Files.{PageFs}
use fs.Plugins.PageFs.Tree.{child_path, is_empty_list}

-- The loop that sets the bytes of a page from `page_offset` on to 0.
unfoldable pub clear_tail : ℕ → Bytes → Bytes
clear_tail page_offset page = overwrite page page_offset (replicate (page_size - page_offset) 0)

-- The new path of `rename`.
unfoldable pub rename_path : Text → Text → Text
unfolding child_path
rename_path old_path new_name =
    let parent = or_default root (parent_path old_path) in
    normalize_path (if starts_with new_name root then new_name else child_path parent new_name)

module _ (K : KvBackend) (S : Serde) where
  open K use {Kv}

  -- The `n` pages from `page_num` on are deleted, in this order.
  unfoldable pub delete_range : ℕ → ℕ → ℕ → Kv → Kv
  delete_range zero inode_id page_num kv = kv
  delete_range (suc n) inode_id page_num kv =
      delete_range n inode_id (page_num + 1) (K.delete (Keys.page inode_id page_num) kv)

  -- The `n` pages from `page_num` on are written with 0, in this order.
  unfoldable pub zero_range : ℕ → ℕ → ℕ → Kv → Kv
  zero_range zero inode_id page_num kv = kv
  zero_range (suc n) inode_id page_num kv =
      zero_range n inode_id (page_num + 1) (write_page K S inode_id page_num zero_page kv)

  -- What is left of the last page after a cut. An index past the end of the page is a panic.
  unfoldable pub cut_page : ℕ → ℕ → ℕ → Kv → FsResult Kv
  unfolding clear_tail
  cut_page inode_id last_page page_offset kv = elim (read_page K S inode_id last_page kv) [
    | none ↦ ok kv
    | some page ↦
        if not (ltb 0 page_offset)
        then ok kv
        else if ltb (length page) page_size
        then panic
        else ok (write_page K S inode_id last_page (clear_tail page_offset page) kv)
  ]

  -- The pages under a new number of pages.
  unfoldable pub resize_pages : ℕ → ℕ → ℕ → Kv → Kv
  unfolding delete_range zero_range
  resize_pages inode_id old_page_count new_page_count kv =
      if ltb new_page_count old_page_count
      then delete_range (old_page_count - new_page_count) inode_id new_page_count kv
      else zero_range (new_page_count - old_page_count) inode_id old_page_count kv

  unfoldable pub cut_pages : ℕ → Inode → ℕ → ℕ → Kv → FsResult Kv
  unfolding cut_page
  cut_pages inode_id inode new_size new_page_count kv =
      if ltb new_size inode.size
      then cut_page inode_id (new_page_count - 1) (new_size % page_size) kv
      else ok kv

  -- The `size` of `wstat`.
  unfoldable pub set_size : Text → ℕ → Inode → Option ℕ → Kv → Kv × FsResult Inode
  unfolding resize_pages cut_pages
  set_size path inode_id inode none kv = (kv, ok inode)
  set_size path inode_id inode (some new_size) kv =
      let new_page_count = max (pages_needed new_size) 1 in
      let kv' = resize_pages inode_id inode.page_count new_page_count kv in
      if Node.is_directory inode
      then (kv, err (is_directory path))
      else elim (cut_pages inode_id inode new_size new_page_count kv') [
        | panic ↦ (kv', panic)
        | err e ↦ (kv', err e)
        | ok kv'' ↦ (kv'', ok (record inode { size = new_size; page_count = new_page_count }))
      ]

  -- The times of `wstat`.
  unfoldable pub set_times : ℕ → StatChanges → Inode → Inode
  unfolding systemtime_to_timestamp
  set_times now changes inode =
      let inode' : Inode = elim changes.atime [
        | none ↦ inode
        | some atime ↦ record inode { atime = systemtime_to_timestamp atime }
      ] in
      elim changes.mtime [
        | none ↦ touch_mtime now inode'
        | some mtime ↦ record inode' { mtime = systemtime_to_timestamp mtime }
      ]

  unfoldable pub change_inode : ℕ → Text → StatChanges → Kv → Kv × FsResult (Unit {0})
  unfolding set_size set_times
  change_inode now path changes kv = elim (resolve_path K S path kv) [
    | err e ↦ (kv, err e)
    | panic ↦ (kv, panic)
    | ok (inode_id, inode) ↦
        let inode' = record inode { mode = or_default inode.mode changes.mode } in
        let (kv', sized) = set_size path inode_id inode' changes.size kv in
        elim sized [
          | err e ↦ (kv', err e)
          | panic ↦ (kv', panic)
          | ok inode'' ↦ (save_inode K S (set_times now changes inode'') kv', ok tt)
        ]
  ]

  -- What stands at the new path is taken away, or is in the way.
  unfoldable pub replace_target : Text → Inode → Kv → Kv × FsResult (Unit {0})
  replace_target new_path src_inode kv = elim (resolve_path K S new_path kv) [
    | err e ↦ (kv, ok tt)
    | panic ↦ (kv, panic)
    | ok (dst_inode_id, dst_inode) ↦
        if Node.is_directory dst_inode
        then (if not (Node.is_directory src_inode)
            then (kv, err (is_directory new_path))
            else if not (is_empty_list (list_dir K S dst_inode_id kv))
            then (kv, err (directory_not_empty new_path))
            else (delete_inode K S dst_inode_id kv, ok tt))
        else if Node.is_directory src_inode
        then (kv, err (not_directory new_path))
        else (delete_inode K S dst_inode_id (delete_pages K S dst_inode_id kv), ok tt)
  ]

  -- The new name, once the old one is gone.
  unfoldable pub link_new : Text → ℕ → Kv → Kv × FsResult (Unit {0})
  link_new new_path src_inode_id kv = elim (resolve_parent K S new_path kv) [
    | err e ↦ (kv, err e)
    | panic ↦ (kv, panic)
    | ok (new_parent_id, new_entry_name) ↦
        (link K S new_parent_id new_entry_name src_inode_id kv, ok tt)
  ]

  unfoldable pub move_entry : Text → Text → ℕ → Kv → Kv × FsResult (Unit {0})
  unfolding link_new
  move_entry old_path new_path src_inode_id kv = elim (resolve_parent K S old_path kv) [
    | err e ↦ (kv, err e)
    | panic ↦ (kv, panic)
    | ok (old_parent_id, old_name) ↦
        link_new new_path src_inode_id (unlink K S old_parent_id old_name kv)
  ]

  unfoldable pub rename : Text → Text → Kv → Kv × FsResult (Unit {0})
  unfolding replace_target move_entry
  rename old_path new_name kv =
      let new_path = rename_path old_path new_name in
      if old_path == new_path then (kv, ok tt) else elim (resolve_path K S old_path kv) [
        | err e ↦ (kv, err e)
        | panic ↦ (kv, panic)
        | ok (src_inode_id, src_inode) ↦
            let (kv', replaced) = replace_target new_path src_inode kv in
            elim replaced [
              | err e ↦ (kv', err e)
              | panic ↦ (kv', panic)
              | ok u ↦ move_entry old_path new_path src_inode_id kv'
            ]
      ]

  unfoldable pub change_kv : ℕ → Text → StatChanges → Kv → Kv × FsResult (Unit {0})
  unfolding change_inode rename
  change_kv now path changes kv = elim changes.name [
    | some new_name ↦ rename path new_name kv
    | none ↦ change_inode now path changes kv
  ]

  unfoldable pub wstat : ℕ → Text → StatChanges → PageFs K → PageFs K × FsResult (Unit {0})
  unfolding change_kv
  wstat now path changes m =
      let path' = normalize_path path in
      let (kv, r) = change_kv now path' changes m.kv in (record m { kv = kv }, r)
