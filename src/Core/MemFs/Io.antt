-- ===== src/Core/MemFs/Io.antt =====
-- `open`, `read`, `write` and `close` of `MemoryFs`.
use fs.Base.{
  ℕ, ◌+◌, ◌%◌, ◌^◌, min, Bool, not, ◌&&◌, Option, none, some, [], ltb, if◌then◌else◌, nat_eq,
  length, slice, resize, overwrite, Text, chars, text_eq,
}
use fs.Base.Map.{Map, get, insert, remove, contains_key}
use fs.Sdk.Error.{
  ok, FsResult, err, panic, not_found, permission_denied, already_exists, invalid_argument,
  is_directory, invalid_handle, ◌>>=◌,
}
use fs.Sdk.Types.{FileInfo, OpenFlags}
use fs.Sdk.Provider.{Handle, Bytes}
use fs.Core.Paths.{normalize_path, parent_path}
use fs.Core.MemFs.Entry.{
  MemEntry, file, dir, symlink, default_file, default_dir, to_file_info, MemoryFs, with_entries,
}

-- A path that `open` may create: its parent is an entry.
unfoldable pub creatable : Text → Text → Map Text MemEntry → FsResult (Unit {0})
creatable kind path entries = elim (parent_path path) [
  | none ↦ err (invalid_argument kind)
  | some parent ↦ if not (contains_key entries parent) then err (not_found parent) else ok tt
]

abbrev pub truncated : ℕ → MemEntry → MemEntry
truncated now (file f) = file (record f { content = []; mtime = now })
truncated now (dir d) = dir d
truncated now (symlink s) = symlink s

-- The block of `open` under the write lock: the entries that it leaves, or an error.
unfoldable pub prepare : ℕ → Text → OpenFlags → Map Text MemEntry → FsResult (Map Text MemEntry)
prepare now path flags entries =
    if flags.create && flags.directory
    then (if contains_key entries path
        then err (already_exists path)
        else (creatable (chars "cannot create directory at root") path entries >>= λ _.
            ok (insert entries path (dir (default_dir now)))))
    else if flags.create
    then elim (get entries path) [
      | none ↦ creatable (chars "cannot create file at root") path entries >>= λ _.
          ok (insert entries path (file (default_file now)))
      | some e ↦ if flags.truncate then ok (insert entries path (truncated now e)) else ok entries
    ]
    else if not (contains_key entries path)
    then err (not_found path)
    else ok entries

unfoldable pub add_handle : Text → OpenFlags → MemoryFs → MemoryFs × Handle
add_handle path flags m = (
  record m {
    handles = insert m.handles m.next_handle (record { path = path; flags = flags });
    next_handle = (m.next_handle + 1) % 2 ^ 64;
  },
  m.next_handle,
)

unfoldable pub open_file : ℕ → Text → OpenFlags → MemoryFs → MemoryFs × FsResult (Handle × FileInfo)
open_file now path flags m =
    let path' = normalize_path path in
    elim (prepare now path' flags m.entries) [
      | err e ↦ (m, err e)
      | panic ↦ (m, panic)
      | ok entries ↦ elim (get entries path') [
        | none ↦ (with_entries m entries, panic)
        | some entry ↦
            let (m', id) = add_handle path' flags (with_entries m entries) in
            (m', ok (id, to_file_info entry path'))
      ]
    ]

-- A sum of offsets that does not fit `usize` ends in a panic: of the addition in a debug build, of
-- the slice, whose start lies behind its end, in a release build.
unfoldable pub read_content : ℕ → ℕ → Bytes → FsResult Bytes
read_content offset size content =
    let start = min offset (length content) in
    if ltb (start + size) (2 ^ 64)
    then ok (slice start (min (start + size) (length content)) content)
    else panic

unfoldable pub read_entry : Text → ℕ → ℕ → Option MemEntry → FsResult Bytes
read_entry path offset size none = err (not_found path)
read_entry path offset size (some (file f)) = read_content offset size f.content
read_entry path offset size (some (dir d)) = err (is_directory path)
read_entry path offset size (some (symlink s)) =
    err (invalid_argument (chars "cannot read symlink as file"))

unfoldable pub read : Handle → ℕ → ℕ → MemoryFs → FsResult Bytes
read handle offset size m = elim (get m.handles handle) [
  | none ↦ err (invalid_handle handle)
  | some h ↦
      if not h.flags.read
      then err (permission_denied (chars "file not opened for reading"))
      else read_entry h.path offset size (get m.entries h.path)
]

unfoldable pub write_content : ℕ → Bytes → Bytes → Bytes
write_content offset bytes content =
    let required_len = offset + length bytes in
    overwrite (if ltb (length content) required_len then resize content required_len 0 else content)
      offset bytes

unfoldable pub write_entry : ℕ → Text → Bool → ℕ → Bytes → Option MemEntry → FsResult MemEntry
write_entry now path append offset bytes none = err (not_found path)
write_entry now path append offset bytes (some (file f)) =
    let write_offset = if append then length f.content else offset in
    if ltb (write_offset + length bytes) (2 ^ 64)
    then ok (file (record f { content = write_content write_offset bytes f.content; mtime = now }))
    else panic
write_entry now path append offset bytes (some (dir d)) = err (is_directory path)
write_entry now path append offset bytes (some (symlink s)) =
    err (invalid_argument (chars "cannot write to symlink"))

unfoldable pub write : ℕ → Handle → ℕ → Bytes → MemoryFs → MemoryFs × FsResult ℕ
write now handle offset bytes m = elim (get m.handles handle) [
  | none ↦ (m, err (invalid_handle handle))
  | some h ↦
      if not h.flags.write
      then (m, err (permission_denied (chars "file not opened for writing")))
      else elim (write_entry now h.path h.flags.append offset bytes (get m.entries h.path)) [
        | ok e ↦ (with_entries m (insert m.entries h.path e), ok (length bytes))
        | err e ↦ (m, err e)
        | panic ↦ (m, panic)
      ]
]

unfoldable pub close : Handle → MemoryFs → MemoryFs × FsResult (Unit {0})
close handle m =
    if contains_key m.handles handle
    then (record m { handles = remove m.handles handle }, ok tt)
    else (m, err (invalid_handle handle))
