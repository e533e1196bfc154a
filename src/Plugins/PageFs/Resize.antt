-- ===== src/Plugins/PageFs/Resize.antt =====
-- What a call of `wstat` of `PageFsProvider` that cuts a file does to its bytes.
use fs.Base.{
  ℕ, zero, suc, ◌+◌, ◌-◌, ◌*◌, ◌/◌, ◌%◌, ◌^◌, ◌≤◌, ◌<◌, max, ◌≡◌, refl, ap, ◌∙◌, inl, inr, true,
  false, some, arith, ltb, eqb, if◌then◌else◌, ◌==◌, nat_eq, Bool-cases, Option-cases, ltb→lt,
  lt→ltb, Text, text_eq,
}
use fs.Sdk.Error.{ok}
use fs.Sdk.Types.{truncate}
use fs.Plugins.PageFs.Keys
use fs.Plugins.PageFs.Kv.{KvBackend}
use fs.Plugins.PageFs.Node
use fs.Plugins.PageFs.Node.{page_size, Inode, touch_mtime, Serde}
use fs.Plugins.PageFs.Store.{pages_needed, load_inode, read_page, save_inode}
use fs.Plugins.PageFs.Names.{normalize_path, resolve_path}
use fs.Plugins.PageFs.Files.{PageFs}
use fs.Plugins.PageFs.Changes.{
  delete_range, zero_range, cut_page, resize_pages, cut_pages, set_size, set_times, change_inode,
  change_kv, wstat,
}
use fs.Plugins.PageFs.View.{patched, byte_at, if_same}
use fs.Plugins.PageFs.Frame.{byte_at-save_inode, load_inode-save_inode}
use fs.Plugins.PageFs.Truncate.{IsPadded, cut_pages_lem, byte_at-resize_pages}

pages_needed_lem :
    (size : ℕ)
    → 0 < size
    → size + page_size ≤ 2 ^ 64
    → pages_needed size ≡ (size + page_size - 1) / page_size
unfolding pages_needed
pages_needed_lem size h b =
    let no_wrap : (size + page_size - 1) % 2 ^ 64 ≡ size + page_size - 1 = omega arith in
    let some_size : eqb size 0 ≡ false = ground arith in rw (pages_needed, some_size, no_wrap) refl

-- The cut of the last page and the loss of the pages behind it, as one.
cut_all :
    (i size count old b : ℕ)
    → i < old * page_size
    → size ≤ count * page_size
    → patched i size (count * page_size - size) 0 (patched (i / page_size) count (old - count) 0 b)
      ≡ (if ltb i size then b else 0)
cut_all i size count old b h l = elim (Bool-cases (ltb i size)) [
  | inl q ↦
      let kept : ltb (i / page_size) count ≡ true = lt→ltb _ _ (omega (arith, ltb→lt i size q)) in
      rw (q, kept) refl
  | inr q ↦ elim (Bool-cases (ltb (i / page_size) count)) [
    | inl r ↦
        let near : ltb (i - size) (count * page_size - size) ≡ true = lt→ltb _ _ (ground arith) in
        rw (q, near) refl
    | inr r ↦
        let gone : ltb (i / page_size - count) (old - count) ≡ true = lt→ltb _ _ (ground arith) in
        rw (q, r, gone) (if_same (ltb (i - size) (count * page_size - size)) 0)
  ]
]

module _ (K : KvBackend) (S : Serde) where
  open K use {Kv}

  delete_range-IsPadded :
      (n id p : ℕ) (kv : Kv)
      → ((q : ℕ) → IsPadded (read_page K S id q kv))
      → (q : ℕ) → IsPadded (read_page K S id q (delete_range K S n id p kv))
  unfolding delete_range read_page
  delete_range-IsPadded zero id p kv h q = h q
  delete_range-IsPadded (suc n) id p kv h q =
      delete_range-IsPadded n id (p + 1) (K.delete (Keys.page id p) kv)
        (λ r. elim (Bool-cases (Keys.page id p == Keys.page id r)) [
          | inl e ↦ rw (K.get-delete (Keys.page id p) kv (Keys.page id r), e) tt
          | inr e ↦ rw (K.get-delete (Keys.page id p) kv (Keys.page id r), e) (h r)
        ])
        q

  resize_pages-IsPadded :
      (id old count : ℕ) (kv : Kv)
      → count ≤ old
      → ((q : ℕ) → IsPadded (read_page K S id q kv))
      → (q : ℕ) → IsPadded (read_page K S id q (resize_pages K S id old count kv))
  unfolding resize_pages zero_range
  resize_pages-IsPadded id old count kv l h q = elim (Bool-cases (ltb count old)) [
    | inl e ↦ rw (resize_pages, e) (delete_range-IsPadded (old - count) id count kv h q)
    | inr e ↦ let none_left : count - old ≡ 0 = omega arith in rw (resize_pages, e, none_left) (h q)
  ]

  -- Nothing is cut at size 0.
  cut_pages_zero : (id : ℕ) (inode : Inode) (kv : Kv) → cut_pages K S id inode 0 1 kv ≡ ok kv
  unfolding cut_pages cut_page
  cut_pages_zero id inode kv = elim (Bool-cases (ltb 0 inode.size)) [
    | inr q ↦ rw (cut_pages, q) refl
    | inl q ↦ elim (Option-cases (read_page K S id 0 kv)) [
      | inl e ↦ rw (cut_pages, q, cut_page, e) refl
      | inr (page, e) ↦ rw (cut_pages, q, cut_page, e) refl
    ]
  ]

  module _ (now : ℕ) (path : Text) (m : PageFs K) (id : ℕ) (inode : Inode)
      (found : resolve_path K S (normalize_path path) m.kv ≡ ok (id, inode))
      (is_file : Node.is_directory inode ≡ false) where
    -- The file under a new size.
    unfoldable pub sized : ℕ → Inode
    sized size = record inode { size = size; page_count = max (pages_needed size) 1 }

    set_size_lem :
        (size : ℕ) (kv' : Kv)
        → cut_pages K S id inode size
            (max (pages_needed size) 1)
            (resize_pages K S id inode.page_count (max (pages_needed size) 1) m.kv)
          ≡ ok kv'
        → set_size K S (normalize_path path) id inode (some size) m.kv ≡ (kv', ok (sized size))
    unfolding set_size sized
    set_size_lem size kv' e = rw (set_size, is_file, e) refl

    wstat_size :
        (size : ℕ) (kv' : Kv)
        → cut_pages K S id inode size
            (max (pages_needed size) 1)
            (resize_pages K S id inode.page_count (max (pages_needed size) 1) m.kv)
          ≡ ok kv'
        → wstat K S now path (truncate size) m ≡ (
          record m { kv = save_inode K S (set_times K S now (truncate size) (sized size)) kv' },
          ok tt,
        )
    unfolding wstat change_kv change_inode truncate sized
    wstat_size size kv' e =
        let done = set_size_lem size kv' e in
        rw (change_kv, change_inode, found, done)
          (ap
            (λ r. (
              record m { kv = save_inode K S (set_times K S now (truncate size) (sized size)) r.0 },
              ok tt,
            ))
            done)

    pub set_times-id : (size : ℕ) → (set_times K S now (truncate size) (sized size)).id ≡ inode.id
    unfolding set_times truncate sized touch_mtime
    set_times-id size = refl

    pub set_times-size : (size : ℕ) → (set_times K S now (truncate size) (sized size)).size ≡ size
    unfolding set_times truncate sized touch_mtime
    set_times-size size = refl

    pub set_times-page_count :
        (size : ℕ)
        → (set_times K S now (truncate size) (sized size)).page_count ≡ max (pages_needed size) 1
    unfolding set_times truncate sized touch_mtime
    set_times-page_count size = refl

    -- A file within 64 bits, stored under its number, whose number of pages is the one that its
    -- size needs and whose pages are padded, is cut to a size above 0. The call succeeds, the
    -- stored inode has the new size and the number of pages that this size needs, the bytes below
    -- the new size stay, and every other byte of the pages that the file had is 0.
    pub wstat_shrinks :
        (size i : ℕ)
        → id < 2 ^ 64
        → inode.id ≡ id
        → 0 < size
        → size < inode.size
        → inode.size + page_size ≤ 2 ^ 64
        → inode.page_count ≡ max (pages_needed inode.size) 1
        → ((q : ℕ) → IsPadded (read_page K S id q m.kv))
        → i < inode.page_count * page_size
        → ((wstat K S now path (truncate size) m).1 ≡ ok tt)
          × ((after : Inode) × (load_inode K S id (wstat K S now path (truncate size) m).0.kv
                ≡ some after)
              × (after.size ≡ size)
              × (after.page_count ≡ (size + page_size - 1) / page_size))
          × (byte_at K S (wstat K S now path (truncate size) m).0.kv id i
              ≡ (if ltb i size then byte_at K S m.kv id i else 0))
    wstat_shrinks size i a own z b c e p h =
        let (kv', cut, same) =
          cut_pages_lem K S id inode size count kv1 i a b (omega arith) (omega (arith, old))
            (omega (arith, new)) (omega (arith, new))
            (resize_pages-IsPadded id inode.page_count count m.kv fewer p (size / page_size)) in
        rw (wstat_size size kv' cut) (
          refl,
          (
            set_times K S now (truncate size) (sized size),
            load_inode-save_inode K S _ id kv' (set_times-id size ∙ own),
            set_times-size size,
            set_times-page_count size ∙ omega (arith, new),
          ),
          byte_at-save_inode K S _ kv' id i
              ∙ same
              ∙ rw
                  (byte_at-resize_pages K S id inode.page_count count m.kv i a fewer
                    (omega (arith, old)) (omega (arith, old)))
                  (cut_all i size count inode.page_count (byte_at K S m.kv id i) h
                    (omega (arith, new))),
        )
      where
        count : ℕ
        count = max (pages_needed size) 1

        kv1 : Kv
        kv1 = resize_pages K S id inode.page_count count m.kv

        new : pages_needed size ≡ (size + page_size - 1) / page_size
        new = pages_needed_lem size z (omega arith)

        old : inode.page_count ≡ max ((inode.size + page_size - 1) / page_size) 1
        old = e ∙ ap (λ n. max n 1) (pages_needed_lem inode.size (omega arith) c)

        fewer : count ≤ inode.page_count
        fewer = omega (arith, old, new)

    -- A cut to size 0 of a file with a page deletes the pages behind the first and clears nothing.
    unfoldable pub emptied : Kv
    emptied =
        save_inode K S (set_times K S now (truncate 0) (sized 0))
          (resize_pages K S id inode.page_count 1 m.kv)

    pub wstat_zero : wstat K S now path (truncate 0) m ≡ (record m { kv = emptied }, ok tt)
    unfolding emptied
    wstat_zero = wstat_size 0 (resize_pages K S id inode.page_count 1 m.kv) (
        unfold pages_needed in
        cut_pages_zero id inode (resize_pages K S id inode.page_count 1 m.kv))

    pub byte_at-emptied :
        (i : ℕ)
        → id < 2 ^ 64
        → inode.page_count ≤ 2 ^ 64
        → 1 ≤ inode.page_count
        → i < page_size
        → byte_at K S emptied id i ≡ byte_at K S m.kv id i
    unfolding emptied
    byte_at-emptied i a b f h =
        let first : ltb (i / page_size) 1 ≡ true = lt→ltb _ _ (omega arith) in
        byte_at-save_inode K S _ (resize_pages K S id inode.page_count 1 m.kv) id i
        ∙ byte_at-resize_pages K S id inode.page_count 1 m.kv i a f b (omega arith)
        ∙ rw first refl

    -- A size within the first page, from one that is not larger, moves no page.
    pub wstat_first_page :
        (size : ℕ)
        → 0 < size
        → size ≤ page_size
        → inode.size ≤ size
        → inode.page_count ≡ 1
        → wstat K S now path (truncate size) m ≡ (
          record m { kv = save_inode K S (set_times K S now (truncate size) (sized size)) m.kv },
          ok tt,
        )
    unfolding cut_pages resize_pages zero_range
    wstat_first_page size z h l c = wstat_size size m.kv same
      where
        one : max (pages_needed size) 1 ≡ 1
        one = omega (arith, pages_needed_lem size z (omega arith))

        same :
            cut_pages K S id inode size
              (max (pages_needed size) 1)
              (resize_pages K S id inode.page_count (max (pages_needed size) 1) m.kv)
            ≡ ok m.kv
        same = let kept : ltb size inode.size ≡ false = ground arith in rw (one, c, kept) refl
