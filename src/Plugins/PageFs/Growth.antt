-- ===== src/Plugins/PageFs/Growth.antt =====
-- A file of PageFS that `wstat` cuts to nothing and then lets grow again.
use fs.Base.{
  ℕ, zero, suc, ◌+◌, ◌-◌, ◌^◌, ◌≤◌, ◌<◌, ◌≡◌, ◌≢◌, refl, ap, ◌∙◌, sym, inl, inr, some, false, arith,
  ltb, Bool-cases, Text, text_eq, ◌==◌, eq→≡, false→ne,
}
use fs.Base.Utf8.{as_bytes}
use fs.Base.Words.{from_be_bytes}
use fs.Sdk.Error.{ok}
use fs.Sdk.Types.{truncate}
use fs.Sdk.Provider.{Bytes}
use fs.Plugins.PageFs.Keys
use fs.Plugins.PageFs.Keys.{page-ne-inode, page-ne-dir_entry, dir_entry-ne-inode}
use fs.Plugins.PageFs.Kv.{KvBackend}
use fs.Plugins.PageFs.Node
use fs.Plugins.PageFs.Node.{page_size, Inode, Serde, touch_mtime}
use fs.Plugins.PageFs.Store.{decoded, load_inode, lookup, pages_needed}
use fs.Plugins.PageFs.Names.{normalize_path, resolve_path}
use fs.Plugins.PageFs.Files.{PageFs}
use fs.Plugins.PageFs.Changes.{delete_range, zero_range, resize_pages, set_times, wstat}
use fs.Plugins.PageFs.Frame.{
  get-delete_other, get-save_inode, load_inode-save_inode, byte_at-save_inode,
}
use fs.Plugins.PageFs.View.{byte_at}
use fs.Plugins.PageFs.Walk.{SameKinds, resolve_path-stored, resolve_path-kept}
use fs.Plugins.PageFs.Resize.{
  sized, set_times-id, set_times-size, set_times-page_count, emptied, wstat_zero, byte_at-emptied,
  wstat_first_page,
}

module _ (K : KvBackend) (S : Serde) where
  open K use {Kv}

  module _ (id : ℕ) (key : Bytes) (other : (n : ℕ) → Keys.page id n ≢ key) where
    get-delete_range : (n p : ℕ) (kv : Kv) → K.get key (delete_range K S n id p kv) ≡ K.get key kv
    unfolding delete_range
    get-delete_range zero p kv = refl
    get-delete_range (suc n) p kv =
        get-delete_range n (p + 1) (K.delete (Keys.page id p) kv)
        ∙ get-delete_other K S (Keys.page id p) key kv (other p)

    -- With fewer pages the records that are no page of the file stay.
    get-resize_pages :
        (old : ℕ) (kv : Kv) → 1 ≤ old → K.get key (resize_pages K S id old 1 kv) ≡ K.get key kv
    unfolding resize_pages zero_range
    get-resize_pages old kv h = elim (Bool-cases (ltb 1 old)) [
      | inl e ↦ rw (resize_pages, e) (get-delete_range (old - 1) 1 kv)
      | inr e ↦ let none_left : 1 - old ≡ 0 = omega arith in rw (resize_pages, e, none_left) refl
    ]

  module _ (now : ℕ) (path : Text) (m : PageFs K) (id : ℕ) (inode : Inode)
      (found : resolve_path K S (normalize_path path) m.kv ≡ ok (id, inode))
      (is_file : Node.is_directory inode ≡ false) (own : inode.id ≡ id)
      (a_page : 1 ≤ inode.page_count) where
    -- The inode of the empty file.
    abbrev after : Inode
    after = set_times K S now (truncate 0) (sized K S now path m id inode found is_file 0)

    abbrev empty_kv : Kv
    empty_kv = emptied K S now path m id inode found is_file

    after-id : after.id ≡ id
    after-id = set_times-id K S now path m id inode found is_file 0 ∙ own

    after-size : after.size ≡ 0
    after-size = set_times-size K S now path m id inode found is_file 0

    after-is_directory : Node.is_directory after ≡ Node.is_directory inode
    unfolding set_times truncate touch_mtime sized
    after-is_directory = refl

    after-page_count : after.page_count ≡ 1
    unfolding pages_needed
    after-page_count = set_times-page_count K S now path m id inode found is_file 0

    stored : load_inode K S id empty_kv ≡ some after
    unfolding emptied
    stored = load_inode-save_inode K S after id _ after-id

    kept :
        (key : Bytes)
        → Keys.inode id ≢ key
        → ((n : ℕ) → Keys.page id n ≢ key)
        → K.get key empty_kv ≡ K.get key m.kv
    unfolding emptied
    kept key e f =
        get-save_inode K S after key _ (λ q. e (ap Keys.inode (sym after-id) ∙ q))
        ∙ get-resize_pages id key f inode.page_count m.kv a_page

    same_kinds : SameKinds K S m.kv empty_kv
    unfolding load_inode lookup
    same_kinds = record {
      names = λ j name. ap (decoded from_be_bytes) (
          sym (
            kept (Keys.dir_entry j (as_bytes name)) (λ e. dir_entry-ne-inode j id _ (sym e))
              (λ n. page-ne-dir_entry id n j (as_bytes name))));
      kinds = λ j x f. elim (Bool-cases (Keys.inode id == Keys.inode j)) [
        | inl e ↦
            let same_key = eq→≡ (Keys.inode id) (Keys.inode j) e in
            let same : x ≡ inode =
              cc (f, ap (λ k. decoded S.inode_from_slice (K.get k m.kv)) same_key, before) in
            (
              after,
              ap (λ k. decoded S.inode_from_slice (K.get k empty_kv)) (sym same_key) ∙ stored,
              ap Node.is_directory same ∙ sym after-is_directory,
            )
        | inr e ↦ (
          x,
          ap (decoded S.inode_from_slice)
                (kept (Keys.inode j) (false→ne _ _ e) (λ n. page-ne-inode id n j))
              ∙ f,
          refl,
        )
      ];
    }
      where
        before : load_inode K S id m.kv ≡ some inode
        before = resolve_path-stored K S (normalize_path path) m.kv id inode found

    -- A cut to size 0 of a file with a page and at most 2^64 of them, stored under its number,
    -- succeeds, but the bytes of its first page stay in the store: where the file then grows to a
    -- size within its first page, which succeeds as well, all the bytes below the new size are the
    -- ones from before the cut.
    pub wstat_zero_keeps :
        (now' size i : ℕ)
        → id < 2 ^ 64
        → inode.page_count ≤ 2 ^ 64
        → size ≤ page_size
        → i < size
        → let (m', cut) = wstat K S now path (truncate 0) m in
          let (m'', grew) = wstat K S now' path (truncate size) m' in
          (cut ≡ ok tt)
          × ((empty : Inode) × (load_inode K S id m'.kv ≡ some empty) × (empty.size ≡ 0))
          × (grew ≡ ok tt)
          × ((grown : Inode) × (load_inode K S id m''.kv ≡ some grown) × (grown.size ≡ size))
          × (byte_at K S m''.kv id i ≡ byte_at K S m.kv id i)
    wstat_zero_keeps now' size i a b h l =
        let m' : PageFs K = record m { kv = empty_kv } in
        let there : resolve_path K S (normalize_path path) empty_kv ≡ ok (id, after) =
          resolve_path-kept K S m.kv empty_kv same_kinds (normalize_path path) id inode after found
            stored in
        let file : Node.is_directory after ≡ false = after-is_directory ∙ is_file in
        let grows =
          wstat_first_page K S now' path m' id after there file size (omega arith) h
            (omega (arith, after-size)) after-page_count in
        rw (wstat_zero K S now path m id inode found is_file, grows)
          (
            refl,
            (after, stored, after-size),
            refl,
            (
              set_times K S now' (truncate size) (sized K S now' path m' id after there file size),
              load_inode-save_inode K S _ id empty_kv
                  (set_times-id K S now' path m' id after there file size ∙ after-id),
              set_times-size K S now' path m' id after there file size,
            ),
            byte_at-save_inode K S _ empty_kv id i
                ∙ byte_at-emptied K S now path m id inode found is_file i a b a_page (omega arith),
          )
