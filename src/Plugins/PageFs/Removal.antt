-- ===== src/Plugins/PageFs/Removal.antt =====
-- `delete_pages` and `remove` of `PageFsProvider`.
use fs.Base.{
  ℕ, ◌^◌, ◌<◌, ◌≡◌, ◌≢◌, refl, ap, ◌∙◌, sym, inl, inr, false, none, [], ◌∷◌, arith, if◌then◌else◌,
  ◌==◌, starts_with, Text, Option-cases, text_eq, root,
}
use fs.Base.Map
use fs.Base.Map.{Map, is_some}
use fs.Sdk.Error.{ok}
use fs.Sdk.Provider.{Bytes}
use fs.Base.Words.{from_be_bytes}
use fs.Base.Utf8.{as_bytes}
use fs.Plugins.PageFs.Keys
use fs.Plugins.PageFs.Keys.{
  page-starts_with, page-starts_with_other, inode-starts_with, dir_entry-starts_with, page-ne-inode,
  page-ne-dir_entry, dir_entry-ne-inode, inode-injective,
}
use fs.Plugins.PageFs.Kv.{KvBackend}
use fs.Plugins.PageFs.Node.{Inode, Serde}
use fs.Plugins.PageFs.Node
use fs.Plugins.PageFs.Files.{PageFs}
use fs.Plugins.PageFs.Names.{normalize_path, resolve_path, resolve_parent}
use fs.Plugins.PageFs.Tree.{remove_entry, remove_kv, remove}
use fs.Plugins.PageFs.Store.{
  decoded, delete_all, delete_pages, delete_inode, unlink, load_inode, lookup, read_page,
}
use fs.Plugins.PageFs.Frame.{get-delete_other, get-delete_same}
use fs.Plugins.PageFs.Walk.{SameTree, resolve_parent_same}

module _ (K : KvBackend) (S : Serde) where
  open K use {Kv}

  get-delete_all :
      (m : Map Bytes Bytes) (kv : Kv) (j : Bytes)
      → K.get j (delete_all K S m kv) ≡ (if is_some (Map.get m j) then none else K.get j kv)
  unfolding delete_all Map.get
  get-delete_all [] kv j = refl
  get-delete_all ((key, value) ∷ m) kv j =
      ground (arith, get-delete_all m (K.delete key kv) j, K.get-delete key kv j)

  -- `delete_pages` deletes the keys of its prefix, and no others.
  pub get-delete_pages :
      (id : ℕ) (kv : Kv) (j : Bytes)
      → K.get j (delete_pages K S id kv)
        ≡ (if starts_with j (Keys.page_prefix id) then none else K.get j kv)
  unfolding delete_pages
  get-delete_pages id kv j = elim (Option-cases (K.get j kv)) [
    | inl e ↦ ground (
      arith,
      get-delete_all (K.scan (Keys.page_prefix id) kv) kv j,
      K.get-scan (Keys.page_prefix id) kv j,
      e,
    )
    | inr (v, e) ↦ ground (
      arith,
      get-delete_all (K.scan (Keys.page_prefix id) kv) kv j,
      K.get-scan (Keys.page_prefix id) kv j,
      e,
    )
  ]

  get-delete_pages_other :
      (id : ℕ) (kv : Kv) (j : Bytes)
      → starts_with j (Keys.page_prefix id) ≡ false
      → K.get j (delete_pages K S id kv) ≡ K.get j kv
  get-delete_pages_other id kv j e = get-delete_pages id kv j ∙ rw e refl

  delete_pages-SameTree : (id : ℕ) (kv : Kv) → SameTree K S (delete_pages K S id kv) kv
  unfolding load_inode lookup
  delete_pages-SameTree id kv = record {
    inodes = λ j.
        ap (decoded S.inode_from_slice)
          (get-delete_pages_other id kv (Keys.inode j) (inode-starts_with j id));
    entries = λ j name. ap (decoded from_be_bytes) (
        get-delete_pages_other id kv (Keys.dir_entry j (as_bytes name))
          (dir_entry-starts_with j id (as_bytes name)));
  }

  -- What `remove` leaves of a file, once it has found the file and its directory.
  abbrev removed : ℕ → ℕ → Text → Kv → Kv
  removed id parent name kv = delete_inode K S id (unlink K S parent name (delete_pages K S id kv))

  get-removed :
      (id parent : ℕ) (name : Text) (kv : Kv) (key : Bytes)
      → Keys.inode id ≢ key
      → Keys.dir_entry parent (as_bytes name) ≢ key
      → K.get key (removed id parent name kv) ≡ K.get key (delete_pages K S id kv)
  unfolding delete_inode unlink
  get-removed id parent name kv key a b =
      get-delete_other K S (Keys.inode id) key _ a
      ∙ get-delete_other K S (Keys.dir_entry parent (as_bytes name)) key _ b

  remove_file :
      (path : Text) (m : PageFs K) (id : ℕ) (inode : Inode) (parent : ℕ) (name : Text)
      → (normalize_path path == root) ≡ false
      → resolve_path K S (normalize_path path) m.kv ≡ ok (id, inode)
      → Node.is_directory inode ≡ false
      → resolve_parent K S (normalize_path path) m.kv ≡ ok (parent, name)
      → remove K S path m ≡ (record m { kv = removed id parent name m.kv }, ok tt)
  unfolding remove remove_kv remove_entry
  remove_file path m id inode parent name a b c d =
      let d' =
        resolve_parent_same K S _ m.kv (delete_pages-SameTree id m.kv) (normalize_path path) ∙ d in
      rw (remove_kv, a, b, c, remove_entry, d') refl

  -- `remove` at the path of a file other than the root, whose directory is found, succeeds, and
  -- takes the name, the inode and every page of the file out of the store.
  pub lookup-remove :
      (path : Text) (m : PageFs K) (id : ℕ) (inode : Inode) (parent : ℕ) (name : Text)
      → (normalize_path path == root) ≡ false
      → resolve_path K S (normalize_path path) m.kv ≡ ok (id, inode)
      → Node.is_directory inode ≡ false
      → resolve_parent K S (normalize_path path) m.kv ≡ ok (parent, name)
      → ((remove K S path m).1 ≡ ok tt)
        × (lookup K S parent name (remove K S path m).0.kv ≡ none)
        × (load_inode K S id (remove K S path m).0.kv ≡ none)
        × ((n : ℕ) → read_page K S id n (remove K S path m).0.kv ≡ none)
  unfolding lookup load_inode read_page delete_inode unlink
  lookup-remove path m id inode parent name a b c d =
      let entry = Keys.dir_entry parent (as_bytes name) in
      rw (remove_file path m id inode parent name a b c d) (
        refl,
        ap (decoded from_be_bytes) (
            get-delete_other K S (Keys.inode id) entry _
              (λ q. dir_entry-ne-inode parent id (as_bytes name) (sym q))
            ∙ get-delete_same K S entry (delete_pages K S id m.kv)),
        ap (decoded S.inode_from_slice) (get-delete_same K S (Keys.inode id) _),
        λ n.
            get-removed id parent name m.kv (Keys.page id n) (λ q. page-ne-inode id n id (sym q))
              (λ q. page-ne-dir_entry id n parent (as_bytes name) (sym q))
            ∙ get-delete_pages id m.kv (Keys.page id n)
            ∙ rw (page-starts_with id n) refl,
      )

  -- `remove` at the path of a file, whose directory is found, leaves the inode and the pages of
  -- every other file, and every other entry of a directory.
  pub remove-others :
      (path : Text) (m : PageFs K) (id : ℕ) (inode : Inode) (parent : ℕ) (name : Text)
      → (normalize_path path == root) ≡ false
      → resolve_path K S (normalize_path path) m.kv ≡ ok (id, inode)
      → Node.is_directory inode ≡ false
      → resolve_parent K S (normalize_path path) m.kv ≡ ok (parent, name)
      → (other n dir : ℕ) (entry : Text) → id < 2 ^ 64
      → other < 2 ^ 64
      → other ≢ id
      → Keys.dir_entry parent (as_bytes name) ≢ Keys.dir_entry dir (as_bytes entry)
      → (load_inode K S other (remove K S path m).0.kv ≡ load_inode K S other m.kv)
        × (read_page K S other n (remove K S path m).0.kv ≡ read_page K S other n m.kv)
        × (lookup K S dir entry (remove K S path m).0.kv ≡ lookup K S dir entry m.kv)
  unfolding lookup load_inode read_page
  remove-others path m id inode parent name a b c d other n dir entry e f g h =
      rw (remove_file path m id inode parent name a b c d) (
        ap (decoded S.inode_from_slice) (
            get-removed id parent name m.kv (Keys.inode other)
              (λ q. g (sym (inode-injective id other e f q)))
              (dir_entry-ne-inode parent other (as_bytes name))
            ∙ get-delete_pages_other id m.kv (Keys.inode other) (inode-starts_with other id)),
        get-removed id parent name m.kv (Keys.page other n) (λ q. page-ne-inode other n id (sym q))
              (λ q. page-ne-dir_entry other n parent (as_bytes name) (sym q))
            ∙ get-delete_pages_other id m.kv (Keys.page other n)
                (page-starts_with_other other id n f e g),
        ap (decoded from_be_bytes) (
            get-removed id parent name m.kv (Keys.dir_entry dir (as_bytes entry))
              (λ q. dir_entry-ne-inode dir id (as_bytes entry) (sym q)) h
            ∙ get-delete_pages_other id m.kv (Keys.dir_entry dir (as_bytes entry))
                (dir_entry-starts_with dir id (as_bytes entry))),
      )
