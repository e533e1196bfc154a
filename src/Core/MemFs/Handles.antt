-- ===== src/Core/MemFs/Handles.antt =====
-- Reading and writing through open handles of `MemoryFs`.
use fs.Base.{
  ℕ, ◌+◌, ◌^◌, ◌<◌, ◌≡◌, ap, ◌≢◌, inl, inr, true, false, none, some, ◌++◌, arith, if◌then◌else◌,
  ◌==◌, nat_eq, lt→ltb, Option-cases, length, Text, text_eq,
}
use fs.Base.Map.{get, Map, get-insert}
use fs.Sdk.Error.{FsResult-cases, ok, FsError, err, panic}
use fs.Sdk.Types.{OpenFlags}
use fs.Sdk.Provider.{Handle, Bytes}
use fs.Core.Paths.{normalize_path}
use fs.Core.MemFs.Entry.{
  MemFile, MemEntry, file, dir, default_file, default_dir, OpenHandle, MemoryFs,
}
use fs.Core.MemFs.Io.{
  read_entry, read, write_content, write_entry, write, creatable, truncated, prepare, open_file,
}
use fs.Core.MemFs.Bytes.{read_content-write_content, write_content_end}

-- A handle on a regular file, with the rights and the mode of its flags.
pub record IsOpen (m : MemoryFs) (handle : Handle) (h : OpenHandle) (f : MemFile) : Type 0 where
  pub found : get m.handles handle ≡ some h
  pub present : get m.entries h.path ≡ some (file f)

module _ (m : MemoryFs) (handle : Handle) (h : OpenHandle) (f : MemFile)
    (o : IsOpen m handle h f) where
  abbrev place : ℕ → ℕ
  place offset = if h.flags.append then length f.content else offset

  -- A write through a writable handle on a file returns the number of the bytes and replaces the
  -- content and the modification time of this file; every other path keeps its entry.
  pub write_open :
      (now offset : ℕ) (bytes : Bytes) (j : Text)
      → h.flags.write ≡ true
      → place offset + length bytes < 2 ^ 64
      → ((write now handle offset bytes m).1 ≡ ok (length bytes))
        × (get (write now handle offset bytes m).0.entries j ≡ (
            if h.path == j
            then some (
                file (record f {
                  content = write_content (place offset) bytes f.content;
                  mtime = now;
                }))
            else get m.entries j))
        × ((write now handle offset bytes m).0.handles ≡ m.handles)
  unfolding write write_entry
  write_open now offset bytes j w fits = ground (
    arith,
    o.found,
    o.present,
    lt→ltb _ _ fits,
    get-insert m.entries h.path
        (file (record f { content = write_content (place offset) bytes f.content; mtime = now })) j,
  )

  -- What is written through a handle without the append flag is read back through it.
  pub read-write :
      (now offset : ℕ) (bytes : Bytes)
      → h.flags.read ≡ true
      → h.flags.write ≡ true
      → h.flags.append ≡ false
      → offset + length bytes < 2 ^ 64
      → read handle offset (length bytes) (write now handle offset bytes m).0 ≡ ok bytes
  unfolding read read_entry
  read-write now offset bytes r w a fits =
      let p : place offset ≡ offset = ground arith in
      let fits' : place offset + length bytes < 2 ^ 64 = omega arith in
      let after = write_open now offset bytes h.path w fits' in
      ground (
        arith,
        o.found,
        after.1,
        after.2,
        ap (λ n. write_content n bytes f.content) p,
        read_content-write_content offset bytes f.content fits,
      )

  -- Through a handle with the append flag every write adds to the end, whatever its offset.
  pub write-append :
      (now offset : ℕ) (bytes : Bytes)
      → h.flags.write ≡ true
      → h.flags.append ≡ true
      → length f.content + length bytes < 2 ^ 64
      → get (write now handle offset bytes m).0.entries h.path
        ≡ some (file (record f { content = f.content ++ bytes; mtime = now }))
  write-append now offset bytes w a fits =
      let p : place offset ≡ length f.content = ground arith in
      let fits' : place offset + length bytes < 2 ^ 64 = omega arith in
      ground (
        arith,
        (write_open now offset bytes h.path w fits').1,
        ap (λ n. write_content n bytes f.content) p,
        write_content_end bytes f.content,
      )

-- The entry that `open` answers for is there once its guards have passed.
prepare-present :
    (now : ℕ) (path : Text) (flags : OpenFlags) (entries : Map Text MemEntry)
    {entries' : Map Text MemEntry}
    → prepare now path flags entries ≡ ok entries'
    → get entries' path ≢ none
unfolding prepare
prepare-present now path flags entries h = elim (Option-cases (get entries path)) [
  | inl e ↦ ground (
    arith,
    get-insert entries path (dir (default_dir now)) path,
    get-insert entries path (file (default_file now)) path,
  )
  | inr (entry, e) ↦ ground (arith, get-insert entries path (truncated now entry) path)
]

prepare-ne-panic :
    (now : ℕ) (path : Text) (flags : OpenFlags) (entries : Map Text MemEntry)
    → prepare now path flags entries ≢ panic
unfolding prepare creatable
prepare-ne-panic now path flags entries h = ground arith

-- `open` never reaches its `unwrap` of a missing entry.
open-ne-panic :
    (now : ℕ) (path : Text) (flags : OpenFlags) (m : MemoryFs)
    → (open_file now path flags m).1 ≢ panic
unfolding open_file
open-ne-panic now path flags m h =
    let path' = normalize_path path in
    elim (FsResult-cases (prepare now path' flags m.entries)) [
      | inl (entries, e) ↦ ground (arith, prepare-present now path' flags m.entries e, h, e)
      | inr (inl (x, e)) ↦ ground (arith, h, e)
      | inr (inr e) ↦ prepare-ne-panic now path' flags m.entries e
    ]

-- A call of `write` that fails leaves the file system as it was.
pub write_fails :
    (now : ℕ) (handle : Handle) (offset : ℕ) (bytes : Bytes) (m : MemoryFs) {e : FsError}
    → (write now handle offset bytes m).1 ≡ err e
    → (write now handle offset bytes m).0 ≡ m
unfolding write
write_fails now handle offset bytes m h = ground arith
