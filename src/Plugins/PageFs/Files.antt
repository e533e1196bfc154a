-- ===== src/Plugins/PageFs/Files.antt =====
-- `open`, `read`, `write` and `close` of `PageFsProvider`. `usize` has 64 bits, and sums wrap around
-- as in a release build.
use fs.Base.{
  ℕ, zero, suc, ◌+◌, ◌-◌, ◌/◌, ◌%◌, ◌^◌, min, max, Bool, true, false, Option, none, some, [], ltb,
  leb, if◌then◌else◌, nat_eq, length, slice, replicate, resize, overwrite, Text, text_eq,
}
use fs.Base.Map
use fs.Base.Map.{Map, contains_key}
use fs.Sdk.Error.{ok, FsResult, err, not_found, is_directory, invalid_handle, panic, ◌>>=◌, FsError}
use fs.Sdk.Types.{FileInfo, OpenFlags, regular, directory}
use fs.Sdk.Provider.{Handle, Bytes}
use fs.Plugins.PageFs.Kv.{KvBackend}
use fs.Plugins.PageFs.Node
use fs.Plugins.PageFs.Node.{
  page_size, Inode, new_file, new_directory, touch_mtime, touch_atime, timestamp_to_system_time,
  Serde,
}
use fs.Plugins.PageFs.Store.{
  pages_needed, alloc_inode, load_inode, save_inode, link, read_page, write_page, delete_pages,
  zero_page,
}
use fs.Plugins.PageFs.Names.{normalize_path, resolve_path, resolve_parent}

pub record OpenFile : Type 0 where
  pub inode_id : ℕ
  pub path : Text
  pub flags : OpenFlags

module _ (K : KvBackend) where
  pub record PageFs : Type 0 where
    pub kv : K.Kv
    pub handles : Map ℕ OpenFile
    pub next_handle : ℕ
    pub uid : ℕ
    pub gid : ℕ

unfoldable pub file_info : ℕ → ℕ → Text → Inode → FileInfo
unfolding timestamp_to_system_time
file_info uid gid path inode = record {
  path = path;
  size = inode.size;
  file_type = if Node.is_directory inode then directory else regular;
  mode = inode.mode;
  uid = uid;
  gid = gid;
  atime = timestamp_to_system_time inode.atime;
  mtime = timestamp_to_system_time inode.mtime;
  ctime = timestamp_to_system_time inode.ctime;
  etag = [];
  symlink_target = none;
}

-- What a page gives to `result` in one round of `read`.
unfoldable pub copy_page : ℕ → ℕ → ℕ → Option Bytes → Bytes → Bytes
copy_page page_offset bytes_in_page bytes_read none result = result
copy_page page_offset bytes_in_page bytes_read (some page) result =
    let to_copy = min bytes_in_page (length page - page_offset) in
    overwrite result bytes_read (slice page_offset (page_offset + to_copy) page)

-- A page of the right length, to write into.
unfoldable pub full_page : Option Bytes → Bytes
full_page none = replicate page_size 0
full_page (some page) = if ltb (length page) page_size then resize page page_size 0 else page

-- The inode after a write up to `new_size`.
abbrev pub grown : ℕ → Inode → Inode
grown new_size inode =
    if ltb inode.size new_size
    then record inode { size = new_size; page_count = max (pages_needed new_size) 1 }
    else inode

module _ (K : KvBackend) (S : Serde) where
  open K use {Kv}

  unfoldable pub stat : Text → PageFs K → FsResult FileInfo
  unfolding file_info
  stat path m =
      let path' = normalize_path path in
      resolve_path K S path' m.kv >>= λ (r : ℕ × Inode). ok (file_info m.uid m.gid path' r.1)

  -- The loop of `read`: a round reads a byte at least, so that fuel `total` is enough.
  unfoldable pub read_loop : ℕ → Kv → ℕ → ℕ → ℕ → ℕ → Bytes → Bytes
  read_loop zero kv inode_id total bytes_read current_offset result = result
  read_loop (suc fuel) kv inode_id total bytes_read current_offset result =
      let page_offset = current_offset % page_size in
      let bytes_in_page = min (page_size - page_offset) (total - bytes_read) in
      let page = read_page K S inode_id (current_offset / page_size) kv in
      let rest =
        read_loop fuel kv inode_id total (bytes_read + bytes_in_page)
          (current_offset + bytes_in_page)
          (copy_page page_offset bytes_in_page bytes_read page result) in
      if ltb bytes_read total then rest else result

  -- The loop of `write`: a round writes a byte at least, so that fuel `length bytes` is enough.
  unfoldable pub write_loop : ℕ → ℕ → Bytes → ℕ → ℕ → Kv → Kv
  write_loop zero inode_id bytes bytes_written current_offset kv = kv
  write_loop (suc fuel) inode_id bytes bytes_written current_offset kv =
      let page_num = current_offset / page_size in
      let page_offset = current_offset % page_size in
      let bytes_to_write = min (page_size - page_offset) (length bytes - bytes_written) in
      let page =
        overwrite (full_page (read_page K S inode_id page_num kv)) page_offset
          (slice bytes_written (bytes_written + bytes_to_write) bytes) in
      let rest =
        write_loop fuel inode_id bytes (bytes_written + bytes_to_write)
          ((current_offset + bytes_to_write) % 2 ^ 64) (write_page K S inode_id page_num page kv) in
      if ltb bytes_written (length bytes) then rest else kv

  -- `open` with `create`, at a path that is not found.
  unfoldable pub create_inode : ℕ → Text → Bool → Kv → Kv × FsResult ℕ
  create_inode now path as_directory kv = elim (resolve_parent K S path kv) [
    | err e ↦ (kv, err e)
    | panic ↦ (kv, panic)
    | ok (parent_inode, name) ↦
        let (allocated, new_id) = alloc_inode K S kv in
        let made : Kv =
          (if as_directory
            then save_inode K S (new_directory now new_id 0o755) allocated
            else save_inode K S (record (new_file now new_id 0o644) { page_count = 1 })
                (write_page K S new_id 0 zero_page allocated)) in
        (link K S parent_inode name new_id made, ok new_id)
  ]

  abbrev is_not_found : FsError → Bool
  is_not_found (not_found p) = true
  is_not_found _ = false

  unfoldable pub open_inode : ℕ → Text → OpenFlags → Kv → Kv × FsResult ℕ
  open_inode now path flags kv = elim (resolve_path K S path kv) [
    | ok (id, inode) ↦ (kv, ok id)
    | panic ↦ (kv, panic)
    | err e ↦
        if flags.create
        then (if is_not_found e then create_inode now path flags.directory kv else (kv, err e))
        else (kv, err e)
  ]

  -- The `truncate` block of `open`.
  unfoldable pub truncate_inode : ℕ → ℕ → Kv → Kv
  truncate_inode now inode_id kv = elim (load_inode K S inode_id kv) [
    | none ↦ kv
    | some inode ↦
        if Node.is_directory inode
        then kv
        else save_inode K S (touch_mtime now (record inode { size = 0; page_count = 1 }))
            (write_page K S inode_id 0 zero_page (delete_pages K S inode_id kv))
  ]

  unfoldable pub open_file :
      ℕ → Text → OpenFlags → PageFs K → PageFs K × FsResult (Handle × FileInfo)
  open_file now path flags m =
      let path' = normalize_path path in
      let (kv, opened) = open_inode now path' flags m.kv in
      elim opened [
        | err e ↦ (record m { kv = kv }, err e)
        | panic ↦ (record m { kv = kv }, panic)
        | ok inode_id ↦
            let m' = record m {
              kv = (if flags.truncate then truncate_inode now inode_id kv else kv);
            } in
            elim (stat path' m') [
              | err e ↦ (m', err e)
              | panic ↦ (m', panic)
              | ok info ↦ (
                record m' {
                  handles =
                      Map.insert m.handles m.next_handle
                        (record { inode_id = inode_id; path = path'; flags = flags });
                  next_handle = (m.next_handle + 1) % 2 ^ 64;
                },
                ok (m.next_handle, info),
              )
            ]
      ]

  -- A sum past 64 bits is below `offset`, and `read` ends in a panic at the difference.
  unfoldable pub read_inode : ℕ → ℕ → ℕ → Inode → ℕ → PageFs K → PageFs K × FsResult Bytes
  read_inode now offset size inode inode_id m =
      let read_end = min ((offset + size) % 2 ^ 64) inode.size in
      if leb inode.size offset then (m, ok []) else if ltb read_end offset then (m, panic) else (
        record m { kv = save_inode K S (touch_atime now inode) m.kv },
        ok (
            read_loop (read_end - offset) m.kv inode_id (read_end - offset) 0 offset
              (replicate (read_end - offset) 0)),
      )

  unfoldable pub read : ℕ → Handle → ℕ → ℕ → PageFs K → PageFs K × FsResult Bytes
  read now handle offset size m = elim (Map.get m.handles handle) [
    | none ↦ (m, err (invalid_handle handle))
    | some h ↦ elim (load_inode K S h.inode_id m.kv) [
      | none ↦ (m, err (not_found h.path))
      | some inode ↦
          if Node.is_directory inode
          then (m, err (is_directory h.path))
          else read_inode now offset size inode h.inode_id m
    ]
  ]

  unfoldable pub write : ℕ → Handle → ℕ → Bytes → PageFs K → PageFs K × FsResult ℕ
  write now handle offset bytes m = elim (Map.get m.handles handle) [
    | none ↦ (m, err (invalid_handle handle))
    | some h ↦ elim (load_inode K S h.inode_id m.kv) [
      | none ↦ (m, err (not_found h.path))
      | some inode ↦
          if Node.is_directory inode
          then (m, err (is_directory h.path))
          else (let write_offset = if h.flags.append then inode.size else offset in
              let kv = write_loop (length bytes) h.inode_id bytes 0 write_offset m.kv in
              let new_size = (write_offset + length bytes) % 2 ^ 64 in
              (
                record m { kv = save_inode K S (touch_mtime now (grown new_size inode)) kv },
                ok (length bytes),
              ))
    ]
  ]

  unfoldable pub close : Handle → PageFs K → PageFs K × FsResult (Unit {0})
  close handle m =
      if contains_key m.handles handle
      then (record m { handles = Map.remove m.handles handle }, ok tt)
      else (m, err (invalid_handle handle))
