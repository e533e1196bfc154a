-- ===== src/Tests/Keys.antt =====
-- A few files of plugins/kv/src/lib.rs.
use native.Mathlib.Decide.{ℕ_discrete}
use fs.Base.{
  ◌≡◌, ◌≢◌, ◌↔◌, refl, arith, true, none, some, List, [], ◌∷◌, ◌++◌, if◌then◌else◌, ◌==◌, Text,
  chars, text_eq, root, text_dec, nat_eq, starts_with,
}
use fs.Base.Order.{IsSorted, text_lt}
use fs.Base.Map.{get}
use fs.Sdk.Error.{ok, err, directory_not_empty}
use fs.Sdk.Flags
use fs.Sdk.Types.{OpenFlags}
use fs.Plugins.Kv.Provider.{
  KvProvider, dir, file, normalize_path, entry_info, open_file, read, write, readdir, remove,
  child_infos, is_child, new,
}
use fs.Plugins.Kv.Listing.{IsChild, readdir_lem, remove-below}
use fs.Plugins.Kv.Files.{kv-read-write, open_dir_lem, open_keeps}
use fs.Plugins.Kv.Entries.{IsStore}
use fs.Plugins.Kv.Sorted.{Call, opens, writes, removes, run, run-IsStore}

-- The root, the directory `/a`, and the files `/a/b` and `/c`.
abbrev mkdir : OpenFlags
mkdir = Flags.create_dir

abbrev kv : KvProvider
kv = record {
  store =
      (root, dir 0o755 0)
      ∷ (chars "/a", dir 0o755 1)
      ∷ (chars "/a/b", file (chars "xy") 0o644 2)
      ∷ (chars "/c", file [] 0o644 3)
      ∷ [];
  handles = (1, (chars "/a/b", Flags.read_write)) ∷ [];
  next_handle = 2;
}

normal_a : normalize_path (chars "/a/") ≡ chars "/a"
unfolding normalize_path text_dec ℕ_discrete
normal_a = refl

kv-IsSorted : IsSorted kv.store
unfolding text_lt
kv-IsSorted = ((refl, (refl, (refl, tt))), ((refl, (refl, tt)), ((refl, tt), (tt, tt))))

found_a : get kv.store (normalize_path (chars "/a/")) ≡ some (dir 0o755 1)
unfolding get normalize_path text_dec ℕ_discrete
found_a = refl

readdir_lem_example :
    (readdir (chars "/a/") kv ≡ ok (child_infos (normalize_path (chars "/a/")) kv.store))
    × ((k : Text)
        → (is_child (normalize_path (chars "/a/")) k ≡ true)
          ↔ IsChild (normalize_path (chars "/a/")) k)
readdir_lem_example = readdir_lem (chars "/a/") kv (dir 0o755 1) kv-IsSorted found_a refl

children_of_a :
    child_infos (normalize_path (chars "/a/")) kv.store
    ≡ entry_info (chars "/a/b") (file (chars "xy") 0o644 2) ∷ []
unfolding is_child normalize_path text_dec ℕ_discrete
children_of_a = refl

not_root : normalize_path (chars "/a/") ≢ root
not_root = λ e. cc (e, normal_a)

a_below : starts_with (chars "/a/b") (normalize_path (chars "/a/") ++ root) ≡ true
unfolding normalize_path starts_with text_dec ℕ_discrete
a_below = refl

found_b : get kv.store (chars "/a/b") ≡ some (file (chars "xy") 0o644 2)
unfolding get text_dec ℕ_discrete
found_b = refl

remove-below_example :
    remove (chars "/a/") kv ≡ (kv, err (directory_not_empty (normalize_path (chars "/a/"))))
remove-below_example =
    remove-below (chars "/a/") (chars "/a/b") kv (file (chars "xy") 0o644 2) kv-IsSorted not_root
      found_b a_below

opened_b : get kv.handles 1 ≡ some (chars "/a/b", Flags.read_write)
unfolding get ℕ_discrete
opened_b = refl

kv-read-write_example : read 1 5 2 (write 9 1 5 (chars "zz") kv).0 ≡ ok (chars "zz")
kv-read-write_example =
    kv-read-write kv 1 (chars "/a/b") Flags.read_write (chars "xy") 0o644 2 opened_b found_b 9 5
      (chars "zz") refl (omega arith)

abbrev lost : Text
lost = chars "/no/dir"

missing : get kv.store lost ≡ none
unfolding get text_dec ℕ_discrete
missing = refl

normal_lost : normalize_path lost ≡ lost
unfolding normalize_path text_dec ℕ_discrete
normal_lost = refl

open_dir_lem_example :
    ((open_file 9 lost mkdir kv).1 ≡ ok (2, entry_info lost (dir 0o755 9)))
    × (get (open_file 9 lost mkdir kv).0.store (chars "/no")
        ≡ (if lost == chars "/no" then some (dir 0o755 9) else get kv.store (chars "/no")))
open_dir_lem_example = open_dir_lem 9 lost (chars "/no") mkdir kv refl refl normal_lost missing

abbrev calls : List Call
calls = opens 1 (chars "/a") mkdir ∷ writes 2 1 0 (chars "x") ∷ removes (chars "/a") ∷ []

run-IsStore_example : IsStore (run calls (new 0)).store
run-IsStore_example = run-IsStore 0 calls

normal_b : normalize_path (chars "/a/b") ≡ chars "/a/b"
unfolding normalize_path text_dec ℕ_discrete
normal_b = refl

open_keeps_example :
    ((open_file 9 (chars "/a/b") (record Flags.create_file { truncate = true }) kv).1
      ≡ ok (2, entry_info (chars "/a/b") (file (chars "xy") 0o644 2)))
    × ((open_file 9 (chars "/a/b") (record Flags.create_file { truncate = true }) kv).0.store
        ≡ kv.store)
open_keeps_example =
    open_keeps 9 (chars "/a/b") (record Flags.create_file { truncate = true }) kv
      (file (chars "xy") 0o644 2) normal_b found_b
