-- ===== src/Tests/Trees.antt =====
-- The directories of PageFs of plugins/pagefs/src over the store in memory.
use native.Mathlib.Decide.{ℕ_discrete}
use fs.Base.{
  ◌∷◌, inl, ℕ, ◌^◌, ◌≤◌, ◌≡◌, refl, ◌≢◌, max, false, true, false→ne, none, some, [], arith, ◌==◌,
  nat_eq, chars, text_dec, text_eq, starts_with, trim_end_matches,
}
use fs.Base.Map
use fs.Base.Order.{insert_sorted, text_lt}
use fs.Base.Words.{to_be_bytes, from_be_bytes}
use fs.Base.Utf8.{as_bytes, char_bytes}
use fs.Sdk.Error.{ok, err, not_found}
use fs.Sdk.Types.{truncate}
use fs.Core.Paths.{before_last, after_last}
use fs.Base.Ranges.{range_from, take_prefixed}
use fs.Plugins.PageFs.Keys
use fs.Plugins.PageFs.Kv
use fs.Plugins.PageFs.Kv.{InMemoryKv, memory}
use fs.Plugins.PageFs.Node
use fs.Plugins.PageFs.Node.{Inode, new_file, new_directory, systemtime_to_timestamp}
use fs.Plugins.PageFs.Store.{
  list_dir, entries_of, pages_needed, load_superblock, load_inode, lookup, read_page, link, unlink,
  save_inode, write_page,
}
use fs.Plugins.PageFs.Names.{
  normalize_path, parent_path, split, non_empty, parts_of, split_last, resolve_parts, resolve_path,
  resolve_parent,
}
use fs.Plugins.PageFs.Files.{PageFs, create_inode}
use fs.Plugins.PageFs.Tree.{remove_kv, remove_entry, child_path, remove}
use fs.Plugins.PageFs.Changes.{rename_path, rename, wstat}
use fs.Plugins.PageFs.View.{byte_at}
use fs.Plugins.PageFs.Listing.{remove_dir-IsEmpty}
use fs.Plugins.PageFs.Removal.{lookup-remove}
use fs.Plugins.PageFs.Renames.{rename_to_free, rename_loses}
use fs.Plugins.PageFs.Truncate.{IsPadded}
use fs.Plugins.PageFs.Resize.{wstat_shrinks}
use fs.Plugins.PageFs.Growth.{wstat_zero_keeps}
use fs.Plugins.PageFs.Creation.{create_inode_lem}
use fs.Tests.Pages.{codec}

program : Unit {0}
unfolding Map.get Map.remove load_inode load_superblock lookup link unlink save_inode insert_sorted
    text_lt Kv.set Kv.new Kv.delete Keys.superblock Keys.inode Keys.dir_prefix Keys.dir_entry
    Keys.page Keys.page_prefix to_be_bytes from_be_bytes as_bytes char_bytes new_file new_directory
    text_dec ℕ_discrete systemtime_to_timestamp normalize_path parent_path split non_empty parts_of
    split_last resolve_parts resolve_path resolve_parent before_last after_last trim_end_matches
    child_path rename_path starts_with read_page pages_needed
program = tt

-- The root directory with a file `/f` of two pages, none of which is stored.
abbrev two_pages : Inode
two_pages = record (new_file 0 2 0o644) { size = 20000; page_count = 2 }

abbrev store : InMemoryKv
store =
    link memory codec 1 (chars "f") 2
      (save_inode memory codec (new_directory 0 1 0o755) (save_inode memory codec two_pages Kv.new))

abbrev disk : PageFs memory
disk = record { kv = store; handles = []; next_handle = 1; uid = 0; gid = 0 }

file_found : resolve_path memory codec (normalize_path (chars "/f")) store ≡ ok (2, two_pages)
unfolding program
file_found = refl

file_parent : resolve_parent memory codec (normalize_path (chars "/f")) store ≡ ok (1, chars "f")
unfolding program
file_parent = refl

not_root : (normalize_path (chars "/f") == chars "/") ≡ false
unfolding program
not_root = refl

a_file : Node.is_directory two_pages ≡ false
unfolding program
a_file = refl

own_id : two_pages.id ≡ 2
unfolding program
own_id = refl

a_page : 1 ≤ two_pages.page_count
unfolding program
a_page = omega arith

few_pages : two_pages.page_count ≤ 2 ^ 64
unfolding program
few_pages = omega arith

f_ne_g : Keys.dir_entry 1 (as_bytes (chars "f")) ≢ Keys.dir_entry 1 (as_bytes (chars "g"))
unfolding program
f_ne_g = false→ne _ _ refl

g_ne_f : Keys.dir_entry 1 (as_bytes (chars "g")) ≢ Keys.dir_entry 1 (as_bytes (chars "f"))
unfolding program
g_ne_f = false→ne _ _ refl

f_found : resolve_path memory codec (chars "/f") store ≡ ok (2, two_pages)
unfolding program
f_found = refl

f_parent : resolve_parent memory codec (chars "/f") store ≡ ok (1, chars "f")
unfolding program
f_parent = refl

g_moves : (chars "/f" == rename_path (chars "/f") (chars "g")) ≡ false
unfolding program
g_moves = refl

g_free :
    resolve_path memory codec (rename_path (chars "/f") (chars "g")) store
    ≡ err (not_found (chars "/g"))
unfolding program
g_free = refl

g_parent :
    resolve_parent memory codec
      (rename_path (chars "/f") (chars "g"))
      (unlink memory codec 1 (chars "f") store)
    ≡ ok (1, chars "g")
unfolding program
g_parent = refl

x_moves : (chars "/f" == rename_path (chars "/f") (chars "/x/g")) ≡ false
unfolding program
x_moves = refl

x_free :
    resolve_path memory codec (rename_path (chars "/f") (chars "/x/g")) store
    ≡ err (not_found (chars "/x/g"))
unfolding program
x_free = refl

x_parent :
    resolve_parent memory codec
      (rename_path (chars "/f") (chars "/x/g"))
      (unlink memory codec 1 (chars "f") store)
    ≡ err (not_found (chars "/x"))
unfolding program
x_parent = refl

pages_of_two : two_pages.page_count ≡ max (pages_needed two_pages.size) 1
unfolding program
pages_of_two = refl

no_pages : (q : ℕ) → IsPadded (read_page memory codec 2 q store)
unfolding program
no_pages q = tt

lookup-remove_example :
    ((remove memory codec (chars "/f") disk).1 ≡ ok tt)
    × (lookup memory codec 1 (chars "f") (remove memory codec (chars "/f") disk).0.kv ≡ none)
    × (load_inode memory codec 2 (remove memory codec (chars "/f") disk).0.kv ≡ none)
    × ((n : ℕ) → read_page memory codec 2 n (remove memory codec (chars "/f") disk).0.kv ≡ none)
lookup-remove_example =
    lookup-remove memory codec (chars "/f") disk 2 two_pages 1 (chars "f") not_root file_found
      a_file file_parent

-- To `/g`, a free name of the root.
rename_to_free_example :
    ((rename memory codec (chars "/f") (chars "g") store).1 ≡ ok tt)
    × (lookup memory codec 1 (chars "g") (rename memory codec (chars "/f") (chars "g") store).0
        ≡ some 2)
    × (lookup memory codec 1 (chars "f") (rename memory codec (chars "/f") (chars "g") store).0
        ≡ none)
rename_to_free_example =
    rename_to_free memory codec (chars "/f") (chars "g") store 2 two_pages (not_found (chars "/g"))
      1 (chars "f") g_moves f_found g_free f_parent 1 (chars "g") g_parent (omega arith) g_ne_f

-- To `/x/g`, where there is no directory `/x`.
rename_loses_example :
    ((rename memory codec (chars "/f") (chars "/x/g") store).1 ≡ err (not_found (chars "/x")))
    × (lookup memory codec 1 (chars "f") (rename memory codec (chars "/f") (chars "/x/g") store).0
        ≡ none)
rename_loses_example =
    rename_loses memory codec (chars "/f") (chars "/x/g") store 2 two_pages
      (not_found (chars "/x/g")) 1 (chars "f") x_moves f_found x_free f_parent
      (not_found (chars "/x")) x_parent

wstat_shrinks_example :
    ((wstat memory codec 0 (chars "/f") (truncate 100) disk).1 ≡ ok tt)
    × ((after : Inode) × (load_inode memory codec 2
            (wstat memory codec 0 (chars "/f") (truncate 100) disk).0.kv
          ≡ some after)
        × (after.size ≡ 100)
        × (after.page_count ≡ 1))
    × (byte_at memory codec (wstat memory codec 0 (chars "/f") (truncate 100) disk).0.kv 2 200 ≡ 0)
wstat_shrinks_example =
    wstat_shrinks memory codec 0 (chars "/f") disk 2 two_pages file_found a_file 100 200
      (omega arith) own_id (omega arith) (omega arith) (omega arith) pages_of_two no_pages
      (omega arith)

-- The same file with three bytes in its first page.
abbrev full_store : InMemoryKv
full_store = write_page memory codec 2 0 (7 ∷ 8 ∷ 9 ∷ []) store

abbrev full_disk : PageFs memory
full_disk = record disk { kv = full_store }

full_found : resolve_path memory codec (normalize_path (chars "/f")) full_store ≡ ok (2, two_pages)
unfolding program write_page
full_found = refl

stored_byte : byte_at memory codec full_store 2 1 ≡ 8
unfolding program write_page
stored_byte = refl

wstat_zero_keeps_example :
    let (m', cut) = wstat memory codec 0 (chars "/f") (truncate 0) full_disk in
    let (m'', grew) = wstat memory codec 5 (chars "/f") (truncate 3) m' in
    (cut ≡ ok tt)
    × ((empty : Inode) × (load_inode memory codec 2 m'.kv ≡ some empty) × (empty.size ≡ 0))
    × (grew ≡ ok tt)
    × ((grown : Inode) × (load_inode memory codec 2 m''.kv ≡ some grown) × (grown.size ≡ 3))
    × (byte_at memory codec m''.kv 2 1 ≡ byte_at memory codec full_store 2 1)
wstat_zero_keeps_example =
    wstat_zero_keeps memory codec 0 (chars "/f") full_disk 2 two_pages full_found a_file own_id
      a_page 5 3 1 (omega arith) few_pages (omega arith) (omega arith)

create_inode_lem_example :
    ((create_inode memory codec 0 (chars "/d") true store).1 ≡ ok 2)
    × (lookup memory codec 1 (chars "d") (create_inode memory codec 0 (chars "/d") true store).0
        ≡ some 2)
    × (load_inode memory codec 2 (create_inode memory codec 0 (chars "/d") true store).0
        ≡ some (new_directory 0 2 0o755))
    × (load_inode memory codec 1 (create_inode memory codec 0 (chars "/d") true store).0
        ≡ load_inode memory codec 1 store)
    × ((load_superblock memory codec
          (create_inode memory codec 0 (chars "/d") true store).0).next_inode
        ≡ 3)
unfolding program
create_inode_lem_example =
    create_inode_lem memory codec 0 (chars "/d") true store 1 (chars "d") refl (omega arith) 1
      (omega arith) (λ e. absurd (omega arith))

-- An empty directory `/e` beside nothing else.
abbrev with_empty : InMemoryKv
with_empty = link memory codec 1 (chars "e") 3 (
    save_inode memory codec (new_directory 0 1 0o755)
      (save_inode memory codec (new_directory 0 3 0o755) Kv.new))

abbrev empty_disk : PageFs memory
empty_disk = record { kv = with_empty; handles = []; next_handle = 1; uid = 0; gid = 0 }

remove_dir-IsEmpty_example : lookup memory codec 3 (chars "x") with_empty ≡ none
unfolding program remove remove_kv remove_entry list_dir entries_of Kv.scan range_from take_prefixed
remove_dir-IsEmpty_example =
    remove_dir-IsEmpty memory codec (chars "/e") empty_disk 3 (new_directory 0 3 0o755) (chars "x")
      refl refl refl refl (inl (omega arith), tt)
