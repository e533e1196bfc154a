-- ===== src/Tests/Memory.antt =====
-- The memory provider of core/src/providers/memfs/mod.rs.
use native.Mathlib.Decide.{ℕ_discrete}
use fs.Base.{
  ◌≡◌, refl, none, some, [], ◌∷◌, if◌then◌else◌, ◌==◌, nat_eq, chars, text_dec, text_eq, root,
  false→ne,
}
use fs.Base.Map.{get, insert, remove}
use fs.Sdk.Error.{ok}
use fs.Sdk.Flags
use fs.Core.Paths.{normalize_path, parent_path}
use fs.Core.MemFs.Entry.{
  MemFile, file, dir, MemoryFs, OpenHandle, default_file, default_dir, new, any_key,
}
use fs.Core.MemFs.Io.{
  open_file, read, write, prepare, creatable, add_handle, write_entry, write_content, read_content,
  read_entry,
}
use fs.Core.MemFs.Stat.{rename_entry, rename_target, rename_conflict, is_child}
use fs.Core.MemFs.Dirs.{remove_path}
use fs.Core.MemFs.Handles.{IsOpen}
use fs.Core.MemFs.Tree.{IsTree, open-IsTree, new-IsTree}
use fs.Core.MemFs.Rename.{remove_dir-IsTree, get-rename_entry, rename_dir_strands}

program : Unit {0}
unfolding new get insert remove rename_conflict any_key is_child open_file prepare creatable
    add_handle read write write_entry write_content read_content read_entry rename_entry
    rename_target remove_path normalize_path parent_path text_dec ℕ_discrete
program = tt

-- A directory `/d`, a file `/d/f` with three bytes, and handles on it: 1 to read and write, 2 to append.
abbrev three : MemFile
three = record (default_file 10) { content = 1 ∷ 2 ∷ 3 ∷ [] }

abbrev rw_handle : OpenHandle
rw_handle = record { path = chars "/d/f"; flags = Flags.read_write }

abbrev append_handle : OpenHandle
append_handle = record { path = chars "/d/f"; flags = Flags.append }

abbrev disk : MemoryFs
disk = record {
  entries =
      (root, dir (default_dir 10))
      ∷ (chars "/d", dir (default_dir 10))
      ∷ (chars "/d/f", file three)
      ∷ [];
  handles = (1, rw_handle) ∷ (2, append_handle) ∷ [];
  next_handle = 3;
}

rw-IsOpen : IsOpen disk 1 rw_handle three
unfolding program
rw-IsOpen = record { found = refl; present = refl }

append-IsOpen : IsOpen disk 2 append_handle three
unfolding program
append-IsOpen = record { found = refl; present = refl }

gap_reads_zero : read 1 0 9 (write 20 1 5 (7 ∷ []) disk).0 ≡ ok (1 ∷ 2 ∷ 3 ∷ 0 ∷ 0 ∷ 7 ∷ [])
unfolding program
gap_reads_zero = refl

open-IsTree_example : IsTree (open_file 20 (chars "/d") Flags.create_dir (new 10)).0.entries
open-IsTree_example = open-IsTree 20 (chars "/d") Flags.create_dir (new 10) (new-IsTree 10)

-- A new file system with the directory `/d`.
abbrev with_dir : MemoryFs
with_dir = (open_file 20 (chars "/d") Flags.create_dir (new 10)).0

remove_dir-IsTree_example : IsTree (remove_path (chars "/d") with_dir).0.entries
unfolding program
remove_dir-IsTree_example =
    remove_dir-IsTree (chars "/d") with_dir (default_dir 20)
      (open-IsTree 20 (chars "/d") Flags.create_dir (new 10) (new-IsTree 10)) refl

get-rename_entry_example :
    get (rename_entry (chars "/d/f") (chars "g") disk).0.entries (chars "/d/g") ≡ (
      if rename_target (chars "/d/f") (chars "g") == chars "/d/g"
      then some (file three)
      else if chars "/d/f" == chars "/d/g"
      then none
      else get disk.entries (chars "/d/g"))
unfolding program
get-rename_entry_example =
    get-rename_entry (chars "/d/f") (chars "g") disk (file three) (chars "/d/g") refl refl

rename_dir_strands_example :
    (get (rename_entry (chars "/d") (chars "e") disk).0.entries (chars "/d/f") ≡ some (file three))
    × (get (rename_entry (chars "/d") (chars "e") disk).0.entries (chars "/d") ≡ none)
    × (¬ IsTree (rename_entry (chars "/d") (chars "e") disk).0.entries)
unfolding program
rename_dir_strands_example =
    rename_dir_strands (chars "/d") (chars "e") disk (dir (default_dir 10)) (file three)
      (chars "/d/f") refl refl (false→ne _ _ refl) (λ e. cc) refl (false→ne _ _ refl) refl
