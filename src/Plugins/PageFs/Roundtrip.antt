-- ===== src/Plugins/PageFs/Roundtrip.antt =====
-- A write of `PageFsProvider` followed by a read through the same handle.
use fs.Base.{
  ℕ, ◌+◌, ◌-◌, ◌^◌, ◌<◌, max, ◌≡◌, refl, ap, ◌∙◌, sym, inl, inr, [], ◌∷◌, arith, ltb, nat_eq,
  ltb→lt, Bool-cases, length, text_eq, eq_of_get_or,
}
use fs.Sdk.Error.{ok}
use fs.Sdk.Provider.{Handle, Bytes}
use fs.Plugins.PageFs.Kv.{KvBackend}
use fs.Plugins.PageFs.Node.{Inode, touch_mtime, Serde}
use fs.Plugins.PageFs.Files.{PageFs, OpenFile, grown, read, write}
use fs.Plugins.PageFs.Access.{
  IsOpen, place, write_open, write_lem, read_lem, read_past, written-id, written-is_directory,
  written-size,
}

no_bytes : (bytes : Bytes) → length bytes ≡ 0 → bytes ≡ []
no_bytes [] h = refl
no_bytes (b ∷ bytes) h = absurd (omega arith)

module _ (K : KvBackend) (S : Serde) (m : PageFs K) (handle : Handle) (h : OpenFile) (inode : Inode)
    (o : IsOpen K S m handle h inode) where
  -- After a write the handle is open on the file as the write left it.
  pub write-IsOpen :
      (now offset : ℕ) (bytes : Bytes)
      → place h inode offset + length bytes < 2 ^ 64
      → IsOpen K S
          (write K S now handle offset bytes m).0
          handle
          h
          (touch_mtime now (grown (place h inode offset + length bytes) inode))
  write-IsOpen now offset bytes f =
      let done = write_lem K S m handle h inode o now offset bytes 0 f (omega arith) in
      record {
        found = rw (write_open K S m handle h inode o now offset bytes f) o.found;
        stored = done.1;
        is_file = written-is_directory now _ inode ∙ o.is_file;
        own_id = written-id now _ inode ∙ o.own_id;
        fits = o.fits;
      }

  -- What a write through a handle of a file, within 64 bits, put into it is read back through it
  -- from the place where the write put it: the given offset, or the end of the file for a handle
  -- that appends.
  pub pages-read-write :
      (now offset : ℕ) (bytes : Bytes)
      → place h inode offset + length bytes < 2 ^ 64
      → (read K S now handle
          (place h inode offset)
          (length bytes)
          (write K S now handle offset bytes m).0).1
        ≡ ok bytes
  pages-read-write now offset bytes f = elim (Bool-cases (ltb (place h inode offset) size)) [
    | inl q ↦ inside (ltb→lt _ _ q)
    | inr q ↦
        let none_written : bytes ≡ [] = no_bytes bytes (ground (arith, size_lem)) in
        ap (λ r. r.1)
          (read_past K S m' handle h _ open' now (place h inode offset) (length bytes)
            (ground arith))
        ∙ ap ok (sym none_written)
  ]
    where
      size : ℕ
      size = (touch_mtime now (grown (place h inode offset + length bytes) inode)).size

      size_lem : size ≡ max inode.size (place h inode offset + length bytes)
      size_lem = written-size now _ inode

      m' : PageFs K
      m' = (write K S now handle offset bytes m).0

      open' :
          IsOpen K S m' handle h
            (touch_mtime now (grown (place h inode offset + length bytes) inode))
      open' = write-IsOpen now offset bytes f

      inside :
          place h inode offset < size
          → (read K S now handle (place h inode offset) (length bytes) m').1 ≡ ok bytes
      inside p =
          let ((result, e, long, same), kept) =
            read_lem K S m' handle h _ open' now (place h inode offset) (length bytes) p f in
          e
          ∙ ap ok (
              eq_of_get_or result bytes 0 (omega (arith, long, size_lem)) (λ j l.
                let short : j < length bytes = omega (arith, long, size_lem) in
                let here : place h inode offset + j - place h inode offset ≡ j = omega arith in
                same j l
                ∙ (write_lem K S m handle h inode o now offset bytes (place h inode offset + j) f
                    (omega arith)).2
                ∙ rw here (ground arith)))
