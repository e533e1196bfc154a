-- ===== src/Plugins/PageFs/Access.antt =====
-- `read` and `write` of `PageFsProvider` through an open handle on a file.
use fs.Base.{
  ℕ, ◌+◌, ◌-◌, ◌/◌, ◌%◌, ◌^◌, ◌≤◌, ◌<◌, min, ◌≡◌, ◌≢◌, max, refl, ap, ◌∙◌, sym, inl, inr, true,
  false, some, [], arith, ltb, leb, if◌then◌else◌, nat_eq, Bool-cases, length, get_or, Text,
  text_eq, replicate, length-replicate, get_or-replicate,
}
use native.Mathlib.Numerals.{unary_clauses}
use fs.Base.Map
use fs.Sdk.Error.{ok}
use fs.Sdk.Provider.{Handle, Bytes}
use fs.Plugins.PageFs.Keys
use fs.Base.Words.{from_be_bytes}
use fs.Base.Utf8.{as_bytes}
use fs.Plugins.PageFs.Keys.{
  page-ne-inode, page-ne-dir_entry, dir_entry-ne-inode, page-injective, inode-injective,
}
use fs.Plugins.PageFs.Kv.{KvBackend}
use fs.Plugins.PageFs.Node
use fs.Plugins.PageFs.Node.{page_size, Inode, touch_mtime, touch_atime, Serde}
use fs.Plugins.PageFs.Store.{decoded, load_inode, save_inode, lookup, read_page}
use fs.Plugins.PageFs.Files.{
  PageFs, OpenFile, grown, read_inode, read_loop, write_loop, read, write,
}
use fs.Plugins.PageFs.View.{page_byte, byte_at, byte_at-write}
use fs.Plugins.PageFs.Reads.{length-read_loop, get_or-read_loop}
use fs.Plugins.PageFs.Frame.{
  load_inode-save_inode, get-save_inode, get-write_loop, byte_at-save_inode,
}

-- Where `write` puts the bytes.
abbrev pub place : OpenFile → Inode → ℕ → ℕ
place h inode offset = if h.flags.append then inode.size else offset

-- The inode after a write that ends at `end`.
abbrev written : ℕ → ℕ → Inode → Inode
written now end inode = touch_mtime now (grown end inode)

pub written-id : (now end : ℕ) (inode : Inode) → (written now end inode).id ≡ inode.id
unfolding touch_mtime
written-id now end inode = elim (Bool-cases (ltb inode.size end)) [
  | inl q ↦ rw q refl
  | inr q ↦ rw q refl
]

pub written-is_directory :
    (now end : ℕ) (inode : Inode)
    → Node.is_directory (written now end inode) ≡ Node.is_directory inode
unfolding touch_mtime
written-is_directory now end inode = elim (Bool-cases (ltb inode.size end)) [
  | inl q ↦ rw q refl
  | inr q ↦ rw q refl
]

pub written-size : (now end : ℕ) (inode : Inode) → (written now end inode).size ≡ max inode.size end
unfolding touch_mtime
written-size now end inode = elim (Bool-cases (ltb inode.size end)) [
  | inl q ↦ rw q (ground arith)
  | inr q ↦ rw q (ground arith)
]

module _ (K : KvBackend) (S : Serde) where
  -- A handle on a file whose inode is stored under its number.
  pub record IsOpen (m : PageFs K) (handle : Handle) (h : OpenFile) (inode : Inode) : Type 0 where
    pub found : Map.get m.handles handle ≡ some h
    pub stored : load_inode K S h.inode_id m.kv ≡ some inode
    pub is_file : Node.is_directory inode ≡ false
    pub own_id : inode.id ≡ h.inode_id
    pub fits : h.inode_id < 2 ^ 64

  module _ (m : PageFs K) (handle : Handle) (h : OpenFile) (inode : Inode)
      (o : IsOpen m handle h inode) where
    pub write_open :
        (now offset : ℕ) (bytes : Bytes)
        → place h inode offset + length bytes < 2 ^ 64
        → write K S now handle offset bytes m ≡ (
          record m {
            kv =
                save_inode K S
                  (written now (place h inode offset + length bytes) inode)
                  (write_loop K S (length bytes) h.inode_id bytes 0 (place h inode offset) m.kv);
          },
          ok (length bytes),
        )
    unfolding write
    write_open now offset bytes f =
        let no_wrap : (place h inode offset + length bytes) % 2 ^ 64
            ≡ place h inode offset + length bytes =
          omega arith in
        rw (write, o.found, o.stored, o.is_file, no_wrap) refl

    -- A write within 64 bits answers with the number of its bytes, puts them at the offset (at the
    -- end, if the handle appends) and changes no other byte of the file, and stores an inode that
    -- has grown to the end of the bytes.
    pub write_lem :
        (now offset : ℕ) (bytes : Bytes) (i : ℕ)
        → place h inode offset + length bytes < 2 ^ 64
        → i < 2 ^ 64
        → ((write K S now handle offset bytes m).1 ≡ ok (length bytes))
          × (load_inode K S h.inode_id (write K S now handle offset bytes m).0.kv
              ≡ some (touch_mtime now (grown (place h inode offset + length bytes) inode)))
          × (byte_at K S (write K S now handle offset bytes m).0.kv h.inode_id i ≡ (
              if ltb i (place h inode offset)
              then byte_at K S m.kv h.inode_id i
              else if ltb (i - place h inode offset) (length bytes)
              then get_or bytes (i - place h inode offset) 0
              else byte_at K S m.kv h.inode_id i))
    write_lem now offset bytes i f b = rw (write_open now offset bytes f) (
      refl,
      load_inode-save_inode K S (written now (place h inode offset + length bytes) inode) h.inode_id
          _ (written-id now _ inode ∙ o.own_id),
      byte_at-save_inode K S (written now (place h inode offset + length bytes) inode) _ h.inode_id
            i
          ∙ byte_at-write K S h.inode_id bytes (place h inode offset) m.kv i o.fits b f,
    )

    -- A write within 64 bits changes no other file: the inodes and bytes of the others are as they
    -- were, and so is every entry of a directory.
    pub write-others :
        (now offset : ℕ) (bytes : Bytes) (id i parent : ℕ) (name : Text)
        → place h inode offset + length bytes < 2 ^ 64
        → id ≢ h.inode_id
        → id < 2 ^ 64
        → i < 2 ^ 64
        → (load_inode K S id (write K S now handle offset bytes m).0.kv ≡ load_inode K S id m.kv)
          × (byte_at K S (write K S now handle offset bytes m).0.kv id i ≡ byte_at K S m.kv id i)
          × (lookup K S parent name (write K S now handle offset bytes m).0.kv
              ≡ lookup K S parent name m.kv)
    unfolding load_inode read_page lookup
    write-others now offset bytes id i parent name f e a b = rw (write_open now offset bytes f) (
      ap (decoded S.inode_from_slice) (
          kept (Keys.inode id) (λ q. e (sym (inode-injective _ id own_fits a q) ∙ own))
            (λ n c. page-ne-inode h.inode_id n id)),
      ap (λ p. page_byte p (i % page_size))
          (kept (Keys.page id (i / page_size)) (λ q. page-ne-inode id _ _ (sym q))
            (λ n c q. e (sym (page-injective h.inode_id id n _ o.fits a c (omega arith) q).0))),
      ap (decoded from_be_bytes) (
          kept (Keys.dir_entry parent (as_bytes name)) (λ q. dir_entry-ne-inode parent _ _ (sym q))
            (λ n c. page-ne-dir_entry h.inode_id n parent (as_bytes name))),
    )
      where
        after : Inode
        after = written now (place h inode offset + length bytes) inode

        own : after.id ≡ h.inode_id
        own = written-id now _ inode ∙ o.own_id

        own_fits : after.id < 2 ^ 64
        own_fits = omega (arith, own, o.fits)

        kept :
            (key : Bytes)
            → Keys.inode after.id ≢ key
            → ((n : ℕ) → n < 2 ^ 64 → Keys.page h.inode_id n ≢ key)
            → K.get key (
                save_inode K S after
                  (write_loop K S (length bytes) h.inode_id bytes 0 (place h inode offset) m.kv))
              ≡ K.get key m.kv
        kept key p q =
            get-save_inode K S after key _ p
            ∙ get-write_loop K S (length bytes) h.inode_id bytes 0 (place h inode offset) m.kv key
                (omega arith) q

    -- A read from the end of the file on answers with nothing and changes nothing.
    pub read_past :
        (now offset size : ℕ) → inode.size ≤ offset → read K S now handle offset size m ≡ (m, ok [])
    unfolding read read_inode
    read_past now offset size l =
        let past : leb inode.size offset ≡ true = ground arith in
        rw (read, o.found, o.stored, o.is_file, past) refl

    -- A read that starts in the file.
    read_open :
        (now offset size : ℕ)
        → offset < inode.size
        → offset + size < 2 ^ 64
        → read K S now handle offset size m ≡ (
            let total = min (offset + size) inode.size - offset in
            (
              record m { kv = save_inode K S (touch_atime now inode) m.kv },
              ok (read_loop K S total m.kv h.inode_id total 0 offset (replicate total 0)),
            ))
    unfolding read read_inode
    read_open now offset size l f =
        let no_wrap : (offset + size) % 2 ^ 64 ≡ offset + size = omega arith in
        let inside : leb inode.size offset ≡ false = ground arith in
        let ahead : ltb (min (offset + size) inode.size) offset ≡ false = ground arith in
        rw (read, o.found, o.stored, o.is_file, no_wrap, inside, ahead) refl

    -- A read that starts in the file and stays within 64 bits answers with the bytes of the file
    -- from the offset on: as many as were asked for, or as there are up to the end of the file. The
    -- bytes of the file are as they were.
    pub read_lem :
        (now offset size : ℕ)
        → offset < inode.size
        → offset + size < 2 ^ 64
        → ((bytes : Bytes) × ((read K S now handle offset size m).1 ≡ ok bytes)
            × (length bytes ≡ min size (inode.size - offset))
            × ((j : ℕ)
                → j < length bytes
                → get_or bytes j 0 ≡ byte_at K S m.kv h.inode_id (offset + j)))
          × ((i : ℕ)
              → byte_at K S (read K S now handle offset size m).0.kv h.inode_id i
                ≡ byte_at K S m.kv h.inode_id i)
    read_lem now offset size l f = rw (read_open now offset size l f) (
      (
        result,
        refl,
        long ∙ omega arith,
        λ j q.
            (simp unary_clauses at (
              get_or-read_loop K S total m.kv h.inode_id total 0 offset _ j
                (length-replicate total 0) (omega arith) (omega arith)
                (λ k p. get_or-replicate total 0 k)))
            ∙ ground (arith, long),
      ),
      λ i. byte_at-save_inode K S (touch_atime now inode) m.kv h.inode_id i,
    )
      where
        total : ℕ
        total = min (offset + size) inode.size - offset

        result : Bytes
        result = read_loop K S total m.kv h.inode_id total 0 offset (replicate total 0)

        long : length result ≡ total
        long =
            length-read_loop K S total m.kv h.inode_id total 0 offset _ ∙ length-replicate total 0
