-- ===== src/Plugins/PageFs/Truncate.antt =====
-- `wstat` of `PageFsProvider` with a smaller size.
use native.Mathlib.Decide.{ℕ_discrete}
use mathlib.Core.Path.{subst}
use fs.Base.{
  ℕ, ◌+◌, ◌-◌, ◌*◌, ◌/◌, ◌%◌, ◌^◌, ◌≤◌, ◌<◌, ◌≡◌, refl, ap, ◌∙◌, sym, inl, inr, false, Option, none,
  some, arith, ltb, nat_eq, Bool-cases, Option-cases, ltb→lt, lt→ltb, le→ltb, length, replicate,
  length-replicate, get_or-replicate, text_eq,
}
use fs.Sdk.Error.{ok}
use fs.Sdk.Provider.{Bytes}
use fs.Plugins.PageFs.Kv.{KvBackend}
use fs.Plugins.PageFs.Node.{page_size, Inode, Serde}
use fs.Plugins.PageFs.Store.{read_page, write_page}
use fs.Plugins.PageFs.Files.{full_page}
use fs.Plugins.PageFs.Changes.{clear_tail, cut_page, resize_pages, cut_pages}
use fs.Plugins.PageFs.View.{
  other_page, if_same, page_byte, patched, patched_none, byte_at, byte_at-round,
}
use fs.Plugins.PageFs.Sizes.{byte_at-delete_range, byte_at-zero_range}

-- A page as `write_page` leaves it.
abbrev pub IsPadded : Option Bytes → Type 0
IsPadded none = Unit
IsPadded (some page) = page_size ≤ length page

full_page-IsPadded : (page : Bytes) → page_size ≤ length page → full_page (some page) ≡ page
unfolding full_page
full_page-IsPadded page h = rw (le→ltb page_size (length page) h) refl

module _ (K : KvBackend) (S : Serde) where
  open K use {Kv}

  -- The cut of a page that is padded succeeds and clears the bytes from the new size on.
  byte_at-cut_page :
      (id size : ℕ) (kv : Kv) (i : ℕ)
      → id < 2 ^ 64
      → size < 2 ^ 64
      → i < 2 ^ 64
      → 0 < size % page_size
      → IsPadded (read_page K S id (size / page_size) kv)
      → (kv' : Kv) × (cut_page K S id (size / page_size) (size % page_size) kv ≡ ok kv')
        × (byte_at K S kv' id i
            ≡ patched i size (page_size - size % page_size) 0 (byte_at K S kv id i))
  unfolding cut_page clear_tail
  byte_at-cut_page id size kv i a b c h p =
      elim (Option-cases (read_page K S id (size / page_size) kv)) [
        | inl e ↦ (kv, rw (cut_page, e) refl, absent e)
        | inr (page, e) ↦
            let full : page_size ≤ length page = subst IsPadded e p in
            (
              write_page K S id (size / page_size) (clear_tail (size % page_size) page) kv,
              rw (cut_page, e, lt→ltb 0 (size % page_size) h, le→ltb page_size (length page) full)
                  refl,
              rw (e, full_page-IsPadded page full, long, get_or-replicate {A = ℕ} rest 0 (i - size))
                  at
                  (byte_at-round K S id size i (replicate rest 0) kv a b c (omega (arith, long))),
            )
      ]
    where
      rest : ℕ
      rest = page_size - size % page_size

      long : length (replicate {A = ℕ} rest 0) ≡ rest
      long = length-replicate rest 0

      absent :
          read_page K S id (size / page_size) kv ≡ none
          → byte_at K S kv id i ≡ patched i size rest 0 (byte_at K S kv id i)
      absent e = elim (ℕ_discrete (size / page_size) (i / page_size)) [
        | yes q ↦
            let zero_here : byte_at K S kv id i ≡ 0 =
              ap (λ n. page_byte (read_page K S id n kv) (i % page_size)) (sym q)
              ∙ ap (λ o. page_byte o (i % page_size)) e in
            rw zero_here (ground arith)
        | no q ↦ elim (other_page size i rest q (omega arith)) [
          | inl l ↦ rw (lt→ltb i size l) refl
          | inr l ↦ rw (le→ltb rest (i - size) l) (sym (if_same (ltb i size) (byte_at K S kv id i)))
        ]
      ]

  -- A page is cut only where the new size ends in the middle of it.
  pub cut_pages_lem :
      (id : ℕ) (inode : Inode) (size count : ℕ) (kv : Kv) (i : ℕ)
      → id < 2 ^ 64
      → size < inode.size
      → inode.size < 2 ^ 64
      → i < 2 ^ 64
      → size ≤ count * page_size
      → count * page_size < size + page_size
      → IsPadded (read_page K S id (size / page_size) kv)
      → (kv' : Kv) × (cut_pages K S id inode size count kv ≡ ok kv')
        × (byte_at K S kv' id i ≡ patched i size (count * page_size - size) 0 (byte_at K S kv id i))
  unfolding cut_pages cut_page
  cut_pages_lem id inode size count kv i a b b' c d d' p =
      elim (Bool-cases (ltb 0 (size % page_size))) [
        | inl q ↦
            let h : 0 < size % page_size = ltb→lt 0 (size % page_size) q in
            let last : count - 1 ≡ size / page_size = omega arith in
            let rest : count * page_size - size ≡ page_size - size % page_size = omega arith in
            rw (cut_pages, lt→ltb size inode.size b, last, rest)
              (byte_at-cut_page id size kv i a (omega arith) c h p)
        | inr q ↦
            let none_left : count * page_size - size ≡ 0 = ground arith in
            (
              kv,
              rw (cut_pages, lt→ltb size inode.size b) (uncut q),
              rw none_left (sym (patched_none i size 0 (byte_at K S kv id i))),
            )
      ]
    where
      uncut :
          ltb 0 (size % page_size) ≡ false
          → cut_page K S id (count - 1) (size % page_size) kv ≡ ok kv
      uncut q = elim (Option-cases (read_page K S id (count - 1) kv)) [
        | inl e ↦ rw (cut_page, e) refl
        | inr (page, e) ↦ rw (cut_page, e, q) refl
      ]

  -- Fewer pages: those from the new number on are gone.
  pub byte_at-resize_pages :
      (id old count : ℕ) (kv : Kv) (i : ℕ)
      → id < 2 ^ 64
      → count ≤ old
      → old ≤ 2 ^ 64
      → i < 2 ^ 64
      → byte_at K S (resize_pages K S id old count kv) id i
        ≡ patched (i / page_size) count (old - count) 0 (byte_at K S kv id i)
  unfolding resize_pages
  byte_at-resize_pages id old count kv i a b c d = elim (Bool-cases (ltb count old)) [
    | inl q ↦
        rw (resize_pages, q)
          (byte_at-delete_range K S (old - count) id count kv i a (omega arith) d)
    | inr q ↦
        let none_left : count - old ≡ 0 = omega arith in
        let none_left' : old - count ≡ 0 = ground arith in
        rw (resize_pages, q, none_left, none_left')
          (byte_at-zero_range K S 0 id old kv i a (omega arith) d
            ∙ patched_none (i / page_size) old 0 _
            ∙ sym (patched_none (i / page_size) count 0 _))
  ]
