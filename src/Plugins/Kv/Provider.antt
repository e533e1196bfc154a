-- ===== src/Plugins/Kv/Provider.antt =====
-- `KvProvider` of plugins/kv/src/lib.rs. The namespace of its configuration is read by nothing.
use fs.Base.{
  ℕ, ◌+◌, ◌%◌, ◌^◌, Bool, true, false, not, ◌&&◌, Option, none, some, List, [], ◌∷◌, ◌++◌,
  if◌then◌else◌, ◌==◌, eqb, ltb, nat_eq, length, resize, Text, chars, text_eq, root, slash,
  is_empty, contains, starts_with, strip, trim_end_matches,
}
use fs.Base.Map
use fs.Base.Map.{Map}
use fs.Base.Order.{insert_sorted}
use fs.Base.Ranges.{range_from, take_prefixed}
use fs.Sdk.Error.{
  ok, FsResult, err, panic, not_found, not_directory, is_directory, directory_not_empty,
  permission_denied, invalid_handle,
}
use fs.Sdk.Types.{FileInfo, OpenFlags, regular, directory}
use fs.Sdk.Provider.{Handle, Bytes}
use fs.Core.MemFs.Io.{read_content, write_content}

pub data KvEntry : Type 0 where
  dir : ℕ → ℕ → KvEntry
  file : Bytes → ℕ → ℕ → KvEntry

abbrev pub is_dir : KvEntry → Bool
is_dir (dir mode mtime) = true
is_dir (file bytes mode mtime) = false

abbrev pub mode_of : KvEntry → ℕ
mode_of (dir mode mtime) = mode
mode_of (file bytes mode mtime) = mode

abbrev pub mtime_of : KvEntry → ℕ
mtime_of (dir mode mtime) = mtime
mtime_of (file bytes mode mtime) = mtime

abbrev pub size_of : KvEntry → ℕ
size_of (dir mode mtime) = 0
size_of (file bytes mode mtime) = length bytes

pub record KvProvider : Type 0 where
  pub store : Map Text KvEntry
  pub handles : Map ℕ (Text × OpenFlags)
  pub next_handle : ℕ

unfoldable pub new : ℕ → KvProvider
new now = record { store = (root, dir 0o755 now) ∷ []; handles = []; next_handle = 1 }

unfoldable pub normalize_path : Text → Text
unfolding trim_end_matches
normalize_path path =
    let path' = if is_empty path then root else path in
    if path' == root then root else trim_end_matches path' slash

unfoldable pub entry_info : Text → KvEntry → FileInfo
entry_info path entry = record {
  path = path;
  size = size_of entry;
  file_type = (if is_dir entry then directory else regular);
  mode = mode_of entry;
  uid = 0;
  gid = 0;
  atime = mtime_of entry;
  mtime = mtime_of entry;
  ctime = mtime_of entry;
  etag = [];
  symlink_target = none;
}

unfoldable pub stat : Text → KvProvider → FsResult FileInfo
unfolding entry_info
stat path m =
    let path' = normalize_path path in
    elim (Map.get m.store path') [
      | none ↦ err (not_found path')
      | some entry ↦ ok (entry_info path' entry)
    ]

-- `rsplit_once('/')`: what stands before the last `/`.
unfoldable pub before_last_slash : Text → Option Text
before_last_slash [] = none
before_last_slash (c ∷ s) = elim (before_last_slash s) [
  | some p ↦ some (c ∷ p)
  | none ↦ if eqb c slash then some [] else none
]

unfoldable pub parent_path : Text → Text
unfolding before_last_slash
parent_path path = elim (before_last_slash path) [
  | none ↦ root
  | some parent ↦ if is_empty parent then root else parent
]

-- The part of `open` under the lock of the store.
unfoldable pub prepare : ℕ → Text → OpenFlags → Map Text KvEntry → FsResult (Map Text KvEntry)
unfolding parent_path insert_sorted
prepare now path flags store =
    if flags.create
    then (if Map.contains_key store path
        then ok store
        else if flags.directory
        then ok (insert_sorted store path (dir 0o755 now))
        else if Map.contains_key store (parent_path path)
        then ok (insert_sorted store path (file [] 0o644 now))
        else err (not_found (parent_path path)))
    else if Map.contains_key store path
    then ok store
    else err (not_found path)

unfoldable pub open_file :
    ℕ → Text → OpenFlags → KvProvider → KvProvider × FsResult (Handle × FileInfo)
unfolding prepare stat
open_file now path flags m =
    let path' = normalize_path path in
    elim (prepare now path' flags m.store) [
      | err e ↦ (m, err e)
      | panic ↦ (m, panic)
      | ok store ↦
          let m' : KvProvider = record m { store = store } in
          elim (stat path' m') [
            | err e ↦ (m', err e)
            | panic ↦ (m', panic)
            | ok info ↦ (
              record m' {
                handles = Map.insert m'.handles m'.next_handle (path', flags);
                next_handle = (m'.next_handle + 1) % 2 ^ 64;
              },
              ok (m'.next_handle, info),
            )
          ]
    ]

unfoldable pub read_entry : Text → ℕ → ℕ → KvEntry → FsResult Bytes
unfolding read_content
read_entry path offset size (dir mode mtime) = err (is_directory path)
read_entry path offset size (file bytes mode mtime) = read_content offset size bytes

unfoldable pub read : Handle → ℕ → ℕ → KvProvider → FsResult Bytes
unfolding read_entry
read handle offset size m = elim (Map.get m.handles handle) [
  | none ↦ err (invalid_handle handle)
  | some (path, flags) ↦ elim (Map.get m.store path) [
    | none ↦ err (not_found path)
    | some entry ↦ read_entry path offset size entry
  ]
]

-- A sum past 64 bits ends in a panic at the slice.
unfoldable pub write_entry : ℕ → Text → Bool → ℕ → Bytes → KvEntry → FsResult KvEntry
unfolding write_content
write_entry now path append offset bytes (dir mode mtime) = err (is_directory path)
write_entry now path append offset bytes (file old mode mtime) =
    let write_offset = if append then length old else offset in
    if ltb (write_offset + length bytes) (2 ^ 64)
    then ok (file (write_content write_offset bytes old) mode now)
    else panic

unfoldable pub write : ℕ → Handle → ℕ → Bytes → KvProvider → KvProvider × FsResult ℕ
unfolding write_entry insert_sorted
write now handle offset bytes m = elim (Map.get m.handles handle) [
  | none ↦ (m, err (invalid_handle handle))
  | some (path, flags) ↦ elim (Map.get m.store path) [
    | none ↦ (m, err (not_found path))
    | some entry ↦ elim (write_entry now path flags.append offset bytes entry) [
      | err e ↦ (m, err e)
      | panic ↦ (m, panic)
      | ok entry' ↦ (record m { store = insert_sorted m.store path entry' }, ok (length bytes))
    ]
  ]
]

unfoldable pub close : Handle → KvProvider → KvProvider × FsResult (Unit {0})
close handle m =
    if Map.contains_key m.handles handle
    then (record m { handles = Map.remove m.handles handle }, ok tt)
    else (m, err (invalid_handle handle))

-- The prefix of the keys below a directory, with the `/` at its end.
abbrev pub below : Text → Text
below path = if path == root then root else path ++ root

-- The test of `filter` in `readdir`.
unfoldable pub is_child : Text → Text → Bool
unfolding starts_with strip contains
is_child path k =
    let relative = strip k (below path) in
    not (k == root)
    && starts_with k (below path)
    && not (is_empty relative)
    && not (contains relative slash)

abbrev pub child_infos : Text → Map Text KvEntry → List FileInfo
child_infos path [] = []
child_infos path ((k, entry) ∷ m) =
    let rest = child_infos path m in if is_child path k then entry_info k entry ∷ rest else rest

unfoldable pub readdir : Text → KvProvider → FsResult (List FileInfo)
unfolding is_child entry_info range_from take_prefixed
readdir path m =
    let path' = normalize_path path in
    elim (Map.get m.store path') [
      | none ↦ err (not_found path')
      | some entry ↦
          if not (is_dir entry)
          then err (not_directory path')
          else ok
              (child_infos path' (take_prefixed (below path') (range_from (below path') m.store)))
    ]

-- The keys from `path/` on that begin with it.
unfoldable pub has_children : Text → Map Text KvEntry → Bool
unfolding range_from take_prefixed
has_children path store = elim (take_prefixed (path ++ root) (range_from (path ++ root) store)) [
  | [] ↦ false
  | k ∷ rest ↦ true
]

unfoldable pub remove : Text → KvProvider → KvProvider × FsResult (Unit {0})
unfolding has_children
remove path m =
    let path' = normalize_path path in
    if path' == root
    then (m, err (permission_denied (chars "cannot remove root")))
    else if has_children path' m.store
    then (m, err (directory_not_empty path'))
    else if Map.contains_key m.store path'
    then (record m { store = Map.remove m.store path' }, ok tt)
    else (m, err (not_found path'))

abbrev or_else : Option ℕ → ℕ → ℕ
or_else none old = old
or_else (some value) old = value

abbrev resized : Option ℕ → Bytes → Bytes
resized none bytes = bytes
resized (some size) bytes = resize bytes size 0

unfoldable pub changed : ℕ → Option ℕ → Option ℕ → KvEntry → KvEntry
changed now mode size (dir old mtime) = dir (or_else mode old) now
changed now mode size (file bytes old mtime) = file (resized size bytes) (or_else mode old) now

unfoldable pub wstat :
    ℕ → Text → Option ℕ → Option ℕ → KvProvider → KvProvider × FsResult (Unit {0})
unfolding changed insert_sorted
wstat now path mode size m =
    let path' = normalize_path path in
    elim (Map.get m.store path') [
      | none ↦ (m, err (not_found path'))
      | some entry ↦
          (record m { store = insert_sorted m.store path' (changed now mode size entry) }, ok tt)
    ]
