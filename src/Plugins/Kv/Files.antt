-- ===== src/Plugins/Kv/Files.antt =====
-- Reading and writing through handles of plugins/kv/src/lib.rs, and what `open` creates.
use fs.Base.{
  ℕ, ◌+◌, ◌^◌, ◌<◌, true, false, none, some, ◌≡◌, refl, ◌∙◌, eq_self, Bool-cases, inl, inr, arith,
  if◌then◌else◌, ◌==◌, nat_eq, lt→ltb, length, Text, text_eq,
}
use fs.Base.Map.{get}
use fs.Base.Order.{get-insert_sorted, insert_sorted}
use fs.Sdk.Error.{ok}
use fs.Sdk.Types.{OpenFlags}
use fs.Sdk.Provider.{Handle, Bytes}
use fs.Core.MemFs.Io.{write_content}
use fs.Core.MemFs.Bytes.{read_content-write_content}
use fs.Plugins.Kv.Provider.{
  KvProvider, KvEntry, dir, file, normalize_path, prepare, read_entry, read, write_entry, write,
  open_file, entry_info, stat,
}

module _ (m : KvProvider) (handle : Handle) (path : Text) (flags : OpenFlags) (old : Bytes)
    (mode mtime : ℕ) (opened : get m.handles handle ≡ some (path, flags))
    (present : get m.store path ≡ some (file old mode mtime)) where
  -- A write through a handle on a file that does not append and whose range ends before 2 ^ 64 puts
  -- the bytes at the offset, sets the time, and leaves every other entry and all handles.
  pub get-write :
      (now offset : ℕ) (bytes : Bytes) (j : Text)
      → flags.append ≡ false
      → offset + length bytes < 2 ^ 64
      → ((write now handle offset bytes m).1 ≡ ok (length bytes))
        × (get (write now handle offset bytes m).0.store j ≡ (
            if path == j
            then some (file (write_content offset bytes old) mode now)
            else get m.store j))
        × ((write now handle offset bytes m).0.handles ≡ m.handles)
  unfolding write write_entry
  get-write now offset bytes j a fits = ground (
    arith,
    opened,
    present,
    lt→ltb _ _ fits,
    get-insert_sorted m.store path (file (write_content offset bytes old) mode now) j,
  )

  -- What is written to a file through a handle that does not append is read back through it.
  pub kv-read-write :
      (now offset : ℕ) (bytes : Bytes)
      → flags.append ≡ false
      → offset + length bytes < 2 ^ 64
      → read handle offset (length bytes) (write now handle offset bytes m).0 ≡ ok bytes
  unfolding read read_entry
  kv-read-write now offset bytes a fits =
      let (answer, entry, kept) = get-write now offset bytes path a fits in
      ground (arith, opened, entry, kept, read_content-write_content offset bytes old fits)

-- A directory is created below a parent that does not exist: with the flags `create` and `directory`,
-- `open` of a normal path that is not there succeeds and adds a directory at this path and nothing else,
-- also where the parent is missing.
pub open_dir_lem :
    (now : ℕ) (path j : Text) (flags : OpenFlags) (m : KvProvider)
    → flags.create ≡ true
    → flags.directory ≡ true
    → normalize_path path ≡ path
    → get m.store path ≡ none
    → ((open_file now path flags m).1 ≡ ok (m.next_handle, entry_info path (dir 0o755 now)))
      × (get (open_file now path flags m).0.store j
          ≡ (if path == j then some (dir 0o755 now) else get m.store j))
unfolding open_file prepare stat
open_dir_lem now path j flags m c d n g =
    let there = get-insert_sorted m.store path (dir 0o755 now) in
    let self : get (insert_sorted m.store path (dir 0o755 now)) path ≡ some (dir 0o755 now) =
      there path ∙ rw (eq_self path) refl in
    rw (open_file, prepare, n, g, c, d, stat, n, n, self) (rw (n, n) refl, there j)

-- An entry that is there is kept by every `open`, also with the flag `truncate`: the call succeeds, for a
-- normal path, and leaves the store as it is.
pub open_keeps :
    (now : ℕ) (path : Text) (flags : OpenFlags) (m : KvProvider) (entry : KvEntry)
    → normalize_path path ≡ path
    → get m.store path ≡ some entry
    → ((open_file now path flags m).1 ≡ ok (m.next_handle, entry_info path entry))
      × ((open_file now path flags m).0.store ≡ m.store)
unfolding open_file prepare stat
open_keeps now path flags m entry n g = elim (Bool-cases flags.create) [
  | inl c ↦ rw (open_file, prepare, n, g, c, stat, n, n, g) (rw (n, n) refl, refl)
  | inr c ↦ rw (open_file, prepare, n, g, c, stat, n, n, g) (rw (n, n) refl, refl)
]
