-- ===== src/Core/MemFs/Dirs.antt =====
-- `readdir` and `remove` of `MemoryFs`.
use fs.Base.{
  Bool, not, ◌&&◌, none, some, List, [], ◌∷◌, ◌++◌, if◌then◌else◌, ◌==◌, nat_eq, Text, chars,
  text_eq, slash, root, starts_with, strip, contains,
}
use fs.Base.Map.{Map, get, remove}
use fs.Base.Order.{text_lt}
use fs.Sdk.Error.{
  ok, FsResult, err, not_found, permission_denied, not_directory, directory_not_empty,
}
use fs.Sdk.Types.{FileInfo}
use fs.Core.Paths.{normalize_path}
use fs.Core.MemFs.Entry.{any_key, MemEntry, to_file_info, MemoryFs, with_entries, is_dir}

abbrev dir_prefix : Text → Text
dir_prefix path = if path == root then root else path ++ root

unfoldable pub listed : Text → Text → Bool
listed path k =
    not (k == path)
    && starts_with k (dir_prefix path)
    && not (contains (strip k (dir_prefix path)) slash)

unfoldable pub children : Text → Map Text MemEntry → List FileInfo
children path [] = []
children path ((k, e) ∷ m) =
    let rest = children path m in if listed path k then to_file_info e k ∷ rest else rest

-- `sort_by` on the paths.
unfoldable pub insert_by_path : FileInfo → List FileInfo → List FileInfo
insert_by_path x [] = x ∷ []
insert_by_path x (y ∷ ys) =
    let rest = insert_by_path x ys in if text_lt y.path x.path then y ∷ rest else x ∷ y ∷ ys

unfoldable pub sort_by_path : List FileInfo → List FileInfo
unfolding insert_by_path
sort_by_path [] = []
sort_by_path (x ∷ xs) = insert_by_path x (sort_by_path xs)

unfoldable pub readdir : Text → MemoryFs → FsResult (List FileInfo)
readdir path m =
    let path' = normalize_path path in
    elim (get m.entries path') [
      | none ↦ err (not_found path')
      | some e ↦
          if not (is_dir e)
          then err (not_directory path')
          else ok (sort_by_path (children path' m.entries))
    ]

unfoldable pub remove_path : Text → MemoryFs → MemoryFs × FsResult (Unit {0})
remove_path path m =
    let path' = normalize_path path in
    if path' == root
    then (m, err (permission_denied (chars "cannot remove root")))
    else elim (get m.entries path') [
      | none ↦ (m, err (not_found path'))
      | some e ↦
          if is_dir e && any_key (λ k. starts_with k (path' ++ root)) m.entries
          then (m, err (directory_not_empty path'))
          else (with_entries m (remove m.entries path'), ok tt)
    ]
