-- ===== src/Plugins/PageFs/Creation.antt =====
-- `open` of `PageFsProvider` with `create`, where nothing is found at the path.
use fs.Base.{
  ℕ, ◌+◌, ◌%◌, ◌^◌, ◌<◌, ◌≡◌, ◌≢◌, refl, ap, ◌∙◌, sym, Bool, true, false, some, arith,
  if◌then◌else◌, Text, text_eq,
}
use fs.Base.Utf8.{as_bytes}
use fs.Sdk.Error.{ok}
use fs.Sdk.Provider.{Bytes}
use fs.Plugins.PageFs.Keys
use fs.Plugins.PageFs.Keys.{
  superblock-ne-inode, superblock-ne-page, superblock-ne-dir_entry, dir_entry-ne-inode,
  page-ne-inode, inode-injective,
}
use fs.Plugins.PageFs.Kv.{KvBackend}
use fs.Plugins.PageFs.Node.{new_superblock, Inode, new_file, new_directory, Serde}
use fs.Plugins.PageFs.Store.{
  decoded, or_default, zero_page, load_superblock, save_superblock, alloc_inode, load_inode,
  save_inode, link, lookup, write_page,
}
use fs.Plugins.PageFs.Names.{resolve_parent}
use fs.Plugins.PageFs.Files.{create_inode}
use fs.Plugins.PageFs.Frame.{
  get-set_same, get-set_other, get-save_inode, get-write_page, load_inode-save_inode,
}
use fs.Plugins.PageFs.Renames.{lookup-link}

module _ (K : KvBackend) (S : Serde) where
  open K use {Kv}

  -- The inode of a new file or directory.
  abbrev new_inode : ℕ → ℕ → Bool → Inode
  new_inode now id as_directory =
      if as_directory
      then new_directory now id 0o755
      else record (new_file now id 0o644) { page_count = 1 }

  -- The store with the inode, before it has a name.
  abbrev stored : ℕ → ℕ → Bool → Kv → Kv
  stored now id as_directory kv =
      if as_directory
      then save_inode K S (new_directory now id 0o755) kv
      else save_inode K S (record (new_file now id 0o644) { page_count = 1 })
          (write_page K S id 0 zero_page kv)

  load_inode-stored :
      (now id : ℕ) (as_directory : Bool) (kv : Kv)
      → load_inode K S id (stored now id as_directory kv) ≡ some (new_inode now id as_directory)
  unfolding new_file new_directory
  load_inode-stored now id true kv =
      load_inode-save_inode K S (new_directory now id 0o755) id kv refl
  load_inode-stored now id false kv =
      load_inode-save_inode K S (record (new_file now id 0o644) { page_count = 1 }) id _ refl

  get-stored :
      (now id : ℕ) (as_directory : Bool) (kv : Kv) (key : Bytes)
      → Keys.inode id ≢ key
      → Keys.page id 0 ≢ key
      → K.get key (stored now id as_directory kv) ≡ K.get key kv
  unfolding new_file new_directory
  get-stored now id true kv key a b = get-save_inode K S (new_directory now id 0o755) key kv a
  get-stored now id false kv key a b =
      get-save_inode K S (record (new_file now id 0o644) { page_count = 1 }) key _ a
      ∙ get-write_page K S id 0 zero_page key kv b

  module _ (now : ℕ) (path : Text) (as_directory : Bool) (kv : Kv) (parent : ℕ) (name : Text)
      (found : resolve_parent K S path kv ≡ ok (parent, name))
      (fits : (load_superblock K S kv).next_inode + 1 < 2 ^ 64) where
    next : ℕ
    next = (load_superblock K S kv).next_inode

    abbrev allocated : Kv
    allocated =
        save_superblock K S
          (record (load_superblock K S kv) {
            next_inode = ((load_superblock K S kv).next_inode + 1) % 2 ^ 64;
          })
          kv

    create_lem :
        create_inode K S now path as_directory kv
        ≡ (link K S parent name next (stored now next as_directory allocated), ok next)
    unfolding create_inode alloc_inode next
    create_lem = rw (create_inode, found) refl

    -- A new path whose directory is found gets, as long as the number after it has 64 bits, the next
    -- inode number: the name stands for it in the directory, the store has a new inode under it and
    -- one under every other number as before, and the number is not given out again.
    pub create_inode_lem :
        (other : ℕ)
        → other < 2 ^ 64
        → other ≢ (load_superblock K S kv).next_inode
        → ((create_inode K S now path as_directory kv).1 ≡ ok (load_superblock K S kv).next_inode)
          × (lookup K S parent name (create_inode K S now path as_directory kv).0
              ≡ some (load_superblock K S kv).next_inode)
          × (load_inode K S
                (load_superblock K S kv).next_inode
                (create_inode K S now path as_directory kv).0
              ≡ some (new_inode now (load_superblock K S kv).next_inode as_directory))
          × (load_inode K S other (create_inode K S now path as_directory kv).0
              ≡ load_inode K S other kv)
          × ((load_superblock K S (create_inode K S now path as_directory kv).0).next_inode
              ≡ (load_superblock K S kv).next_inode + 1)
    unfolding next load_inode load_superblock link save_superblock
    create_inode_lem other b d = rw create_lem (
      refl,
      lookup-link K S parent name next _ (omega arith),
      ap (decoded S.inode_from_slice) (
            get-set_other K S _ (Keys.inode next) _ _
              (dir_entry-ne-inode parent next (as_bytes name)))
          ∙ load_inode-stored now next as_directory allocated,
      ap (decoded S.inode_from_slice) (
          get-set_other K S _ (Keys.inode other) _ _
            (dir_entry-ne-inode parent other (as_bytes name))
          ∙ get-stored now next as_directory allocated (Keys.inode other)
              (λ q. d (sym (inode-injective next other (omega arith) b q)))
              (page-ne-inode next 0 other)
          ∙ get-set_other K S Keys.superblock (Keys.inode other) _ kv
              (λ q. superblock-ne-inode other (sym q))),
      ap (λ o. (or_default new_superblock (decoded S.superblock_from_slice o)).next_inode)
            (get-set_other K S _ Keys.superblock _ _
                (superblock-ne-dir_entry parent (as_bytes name))
              ∙ get-stored now next as_directory allocated Keys.superblock
                  (superblock-ne-inode next) (superblock-ne-page next 0)
              ∙ get-set_same K S Keys.superblock _ kv)
          ∙ ap (λ o. (or_default new_superblock o).next_inode) (S.superblock_roundtrip _)
          ∙ omega arith,
    )
