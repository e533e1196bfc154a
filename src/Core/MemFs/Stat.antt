-- ===== src/Core/MemFs/Stat.antt =====
-- `wstat` and `statfs` of `MemoryFs`.
use fs.Base.{
  ℕ, ◌+◌, ◌-◌, ◌*◌, ◌%◌, ◌^◌, Bool, not, ◌&&◌, Option, none, some, [], ◌∷◌, ◌++◌, if◌then◌else◌,
  ◌==◌, nat_eq, length, resize, Text, chars, text_eq, slash, root, starts_with, strip,
}
use fs.Base.Map.{Map, is_some, get, insert, remove, contains_key}
use fs.Sdk.Error.{
  ok, FsError, FsResult, err, panic, not_found, already_exists, invalid_argument, not_directory,
  is_directory, directory_not_empty,
}
use fs.Sdk.Types.{StatChanges, FsStats}
use fs.Sdk.Provider.{Bytes}
use fs.Core.Paths.{normalize_path, parent_path}
use fs.Core.MemFs.Entry.{any_key, MemEntry, file, dir, symlink, new_symlink, MemoryFs, with_entries}

-- The first branch of `wstat`: a symbolic link is made.
unfoldable pub make_symlink : ℕ → Text → Text → MemoryFs → MemoryFs × FsResult (Unit {0})
make_symlink now path target m =
    if contains_key m.entries path
    then (m, err (already_exists path))
    else elim (parent_path path) [
      | none ↦ (m, err (invalid_argument (chars "cannot create symlink at root")))
      | some parent ↦
          if not (contains_key m.entries parent)
          then (m, err (not_found parent))
          else (with_entries m (insert m.entries path (symlink (new_symlink now target))), ok tt)
    ]

-- `k != new_path && k.starts_with(new_path) && k[new_path.len()..].starts_with('/')`
unfoldable pub is_child : Text → Text → Bool
is_child new_path k =
    not (k == new_path) && starts_with k new_path && starts_with (strip k new_path) root

unfoldable pub rename_target : Text → Text → Text
rename_target path new_name =
    if starts_with new_name root
    then normalize_path new_name
    else (let parent : Text = elim (parent_path path) [ none ↦ root | some p ↦ p ] in
        if parent == root
        then normalize_path (slash ∷ new_name)
        else normalize_path (parent ++ slash ∷ new_name))

-- What stands at the target of a rename refuses the entry, or gives way. `entries` is the map
-- without the source.
unfoldable pub rename_conflict : Map Text MemEntry → Text → MemEntry → MemEntry → Option FsError
rename_conflict entries new_path entry (dir d) =
    if any_key (is_child new_path) entries
    then some (directory_not_empty new_path)
    else elim entry [ file f ↦ some (is_directory new_path) | _ ↦ none ]
rename_conflict entries new_path entry (file f) = elim entry [
  | dir d ↦ some (not_directory new_path)
  | _ ↦ none
]
rename_conflict entries new_path entry (symlink s) = elim entry [
  | dir d ↦ some (not_directory new_path)
  | _ ↦ none
]

-- The second branch of `wstat`: the entry is taken out, and put back if the target refuses it.
unfoldable pub rename_entry : Text → Text → MemoryFs → MemoryFs × FsResult (Unit {0})
rename_entry path new_name m = elim (get m.entries path) [
  | none ↦ (m, err (not_found path))
  | some entry ↦
      let entries = remove m.entries path in
      let new_path = rename_target path new_name in
      elim (get entries new_path) [
        | none ↦ (with_entries m (insert entries new_path entry), ok tt)
        | some existing ↦ elim (rename_conflict entries new_path entry existing) [
          | some e ↦ (with_entries m (insert entries path entry), err e)
          | none ↦ (with_entries m (insert (remove entries new_path) new_path entry), ok tt)
        ]
      ]
]

-- The third branch of `wstat`: the new value of a field, if the caller gives one.
abbrev or_old : Option ℕ → ℕ → ℕ
or_old none old = old
or_old (some v) old = v

unfoldable pub set_attrs : ℕ → Text → StatChanges → MemEntry → FsResult MemEntry
set_attrs now path c (file f) =
    let content : Bytes = elim c.size [ none ↦ f.content | some size ↦ resize f.content size 0 ] in
    let mtime : ℕ = elim c.size [ none ↦ f.mtime | some size ↦ now ] in
    ok (
      file (record {
        content = content;
        mode = or_old c.mode f.mode;
        uid = or_old c.uid f.uid;
        gid = or_old c.gid f.gid;
        atime = or_old c.atime f.atime;
        mtime = or_old c.mtime mtime;
        ctime = now;
      }))
set_attrs now path c (dir d) =
    if is_some c.size
    then err (is_directory path)
    else ok (
        dir (record {
          mode = or_old c.mode d.mode;
          uid = or_old c.uid d.uid;
          gid = or_old c.gid d.gid;
          atime = or_old c.atime d.atime;
          mtime = or_old c.mtime d.mtime;
          ctime = now;
        }))
set_attrs now path c (symlink s) = ok (
    symlink (record {
      target = s.target;
      mode = or_old c.mode s.mode;
      uid = or_old c.uid s.uid;
      gid = or_old c.gid s.gid;
      atime = or_old c.atime s.atime;
      mtime = or_old c.mtime s.mtime;
      ctime = now;
    }))

unfoldable pub change_attrs : ℕ → Text → StatChanges → MemoryFs → MemoryFs × FsResult (Unit {0})
change_attrs now path c m = elim (get m.entries path) [
  | none ↦ (m, err (not_found path))
  | some entry ↦ elim (set_attrs now path c entry) [
    | ok entry' ↦ (with_entries m (insert m.entries path entry'), ok tt)
    | err e ↦ (m, err e)
    | panic ↦ (m, panic)
  ]
]

unfoldable pub wstat : ℕ → Text → StatChanges → MemoryFs → MemoryFs × FsResult (Unit {0})
wstat now path changes m =
    let path' = normalize_path path in
    elim changes.symlink_target [
      | some target ↦ make_symlink now path' target m
      | none ↦ elim changes.name [
        | some new_name ↦ rename_entry path' new_name m
        | none ↦ change_attrs now path' changes m
      ]
    ]

unfoldable pub total_size : Map Text MemEntry → ℕ
total_size [] = 0
total_size ((k, file f) ∷ m) = length f.content + total_size m
total_size ((k, dir d) ∷ m) = total_size m
total_size ((k, symlink s) ∷ m) = total_size m

-- `a - b` on `u64`, as a release build computes it.
unfoldable pub sub64 : ℕ → ℕ → ℕ
sub64 a b = (a + (2 ^ 64 - b % 2 ^ 64)) % 2 ^ 64

unfoldable pub statfs : MemoryFs → FsResult FsStats
statfs m = ok (record {
  total_bytes = 1024 * 1024 * 1024;
  free_bytes = sub64 (1024 * 1024 * 1024) (total_size m.entries);
  total_inodes = 1_000_000;
  free_inodes = sub64 1_000_000 (length m.entries);
  block_size = 4096;
  max_name_len = 255;
})
