-- ===== src/Plugins/PageFs/View.antt =====
-- The bytes of a file of PageFs, read off its pages: what the loops of `read` and `write` in
-- plugins/pagefs/src/provider.rs do to them.
use native.Mathlib.Decide.{ℕ_discrete}
use fs.Base.{
  ℕ, zero, suc, ◌+◌, ◌-◌, ◌/◌, ◌%◌, ◌^◌, ◌≤◌, ◌<◌, min, ◌≡◌, ◌≢◌, refl, ap, ◌∙◌, sym, inl, inr,
  Bool, true, false, Option, none, some, arith, ltb, eqb, if◌then◌else◌, ◌==◌, nat_eq, text_eq,
  eq_self, ltb→lt, ne→false, lt→ltb, same→eqb, ne→eqb, le→ltb, ◌⊎◌, Bool-cases, length, get_or,
  slice, overwrite, length-resize, length-overwrite, length-replicate, length-slice,
  get_or-overwrite, get_or_past, get_or-replicate, get_or-resize, get_or-slice,
}
use fs.Sdk.Provider.{Bytes}
use fs.Plugins.PageFs.Keys
use fs.Plugins.PageFs.Keys.{page-injective}
use fs.Plugins.PageFs.Kv.{KvBackend}
use fs.Plugins.PageFs.Node.{page_size, Serde}
use fs.Plugins.PageFs.Store.{read_page, write_page}
use fs.Plugins.PageFs.Files.{full_page, write_loop}

-- A byte of a page; what is not there reads as 0.
abbrev pub page_byte : Option Bytes → ℕ → ℕ
page_byte none k = 0
page_byte (some page) k = get_or page k 0

full_page-byte : (o : Option Bytes) (k : ℕ) → get_or (full_page o) k 0 ≡ page_byte o k
unfolding full_page
full_page-byte none k = get_or-replicate page_size 0 k
full_page-byte (some page) k = elim (Bool-cases (ltb (length page) page_size)) [
  | inl e ↦ rw e (get_or-resize page page_size k 0 ∙ ground (arith, get_or_past page k 0))
  | inr e ↦ rw e refl
]

full_page-full : (o : Option Bytes) → page_size ≤ length (full_page o)
unfolding full_page
full_page-full none = omega (arith, length-replicate {A = ℕ} page_size 0)
full_page-full (some page) = elim (Bool-cases (ltb (length page) page_size)) [
  | inl e ↦ rw e (omega (arith, length-resize page page_size 0))
  | inr e ↦ rw e (ground arith)
]

pub page-eq :
    (i n m : ℕ) → i < 2 ^ 64 → n < 2 ^ 64 → m < 2 ^ 64 → (Keys.page i n == Keys.page i m) ≡ eqb n m
page-eq i n m a b c = elim (ℕ_discrete n m) [
  | yes e ↦ rw e (eq_self (Keys.page i m) ∙ ground arith)
  | no e ↦ ne→false _ _ (λ q. e (page-injective i i n m a a b c q).1) ∙ ground arith
]

pub if_same : {A : Type 0} (b : Bool) (x : A) → (if b then x else x) ≡ x
if_same true x = refl
if_same false x = refl

-- Positions in one page are as far apart as in the file.
same_page :
    (off i : ℕ) → off / page_size ≡ i / page_size → i % page_size + off ≡ i + off % page_size
same_page off i e = omega arith

-- What is written into one page stays in it.
pub other_page :
    (off i n : ℕ)
    → off / page_size ≢ i / page_size
    → off % page_size + n ≤ page_size
    → (i < off) ⊎ (n ≤ i - off)
other_page off i n e h = omega arith

overwritten_byte :
    (old chunk : Bytes) (start j i off : ℕ)
    → start + length chunk ≤ length old
    → j + off ≡ i + start
    → get_or (overwrite old start chunk) j 0 ≡ (
        if ltb i off
        then get_or old j 0
        else if ltb (i - off) (length chunk)
        then get_or chunk (i - off) 0
        else get_or old j 0)
overwritten_byte old chunk start j i off h e = elim (Bool-cases (ltb i off)) [
  | inl q ↦ get_or-overwrite old start chunk j 0 h ∙ ground arith
  | inr q ↦
      let d : j - start ≡ i - off = ground arith in
      get_or-overwrite old start chunk j 0 h ∙ rw d (ground arith)
]

-- A byte at `i` where `n` bytes were put from `off` on: `new` among them, `old` outside.
abbrev pub patched : ℕ → ℕ → ℕ → ℕ → ℕ → ℕ
patched i off n new old = if ltb i off then old else if ltb (i - off) n then new else old

pub patched_none : (i off new old : ℕ) → patched i off 0 new old ≡ old
patched_none i off new old = ground arith

-- Two patches side by side are one; `later` is what the second puts.
pub patched_twice :
    (i off n left first later new old : ℕ)
    → n ≤ left
    → (i - off < n → first ≡ new)
    → (off + n ≤ i → later ≡ new)
    → patched i (off + n) (left - n) later (patched i off n first old) ≡ patched i off left new old
patched_twice i off n left first later new old h e e' = elim (Bool-cases (ltb i off)) [
  | inl p ↦ ground arith
  | inr p ↦ elim (Bool-cases (ltb (i - off) n)) [
    | inl q ↦ rw (e (ltb→lt (i - off) n q)) (ground arith)
    | inr q ↦ rw (e' (ground arith)) (ground arith)
  ]
]

module _ (K : KvBackend) (S : Serde) where
  open K use {Kv}

  -- The byte at `i` of the file's pages.
  abbrev pub byte_at : Kv → ℕ → ℕ → ℕ
  byte_at kv inode_id i = page_byte (read_page K S inode_id (i / page_size) kv) (i % page_size)

  pub read_page-write_page :
      (id n m : ℕ) (page : Bytes) (kv : Kv)
      → id < 2 ^ 64
      → n < 2 ^ 64
      → m < 2 ^ 64
      → page_size ≤ length page
      → read_page K S id m (write_page K S id n page kv)
        ≡ (if eqb n m then some page else read_page K S id m kv)
  unfolding read_page write_page
  read_page-write_page id n m page kv a b c h =
      rw (le→ltb page_size (length page) h, write_page)
        (K.get-set (Keys.page id n) page kv (Keys.page id m) ∙ rw (page-eq id n m a b c) refl)

  -- One round of the loop of `write`.
  pub byte_at-round :
      (id off i : ℕ) (chunk : Bytes) (kv : Kv)
      → id < 2 ^ 64
      → off < 2 ^ 64
      → i < 2 ^ 64
      → off % page_size + length chunk ≤ page_size
      → byte_at
          (write_page K S id
            (off / page_size)
            (overwrite (full_page (read_page K S id (off / page_size) kv)) (off % page_size) chunk)
            kv)
          id
          i
        ≡ patched i off (length chunk) (get_or chunk (i - off) 0) (byte_at kv id i)
  byte_at-round id off i chunk kv a b c h =
      ap (λ o. page_byte o (i % page_size))
        (read_page-write_page id n m page kv a (omega arith) (omega arith) long)
      ∙ elim (ℕ_discrete n m) [
        | yes e ↦ rw (same→eqb n m e) (
            overwritten_byte old chunk (off % page_size) (i % page_size) i off (omega (arith, full))
              (same_page off i e)
            ∙ rw (full_page-byte (read_page K S id n kv) (i % page_size), e) refl)
        | no e ↦ elim (other_page off i (length chunk) e h) [
          | inl q ↦ rw (ne→eqb n m e, lt→ltb i off q) refl
          | inr q ↦
              rw (ne→eqb n m e, le→ltb (length chunk) (i - off) q)
                (sym (if_same (ltb i off) (byte_at kv id i)))
        ]
      ]
    where
      n : ℕ
      n = off / page_size

      m : ℕ
      m = i / page_size

      old : Bytes
      old = full_page (read_page K S id n kv)

      page : Bytes
      page = overwrite old (off % page_size) chunk

      full : page_size ≤ length old
      full = full_page-full (read_page K S id n kv)

      long : page_size ≤ length page
      long = omega (arith, length-overwrite old (off % page_size) chunk, full)

  -- The loop of `write`: with enough fuel the bytes from `bytes_written` on stand from
  -- `current_offset` on, and every other byte of the file is as it was.
  byte_at-write_loop :
      (fuel id : ℕ) (bytes : Bytes) (written off : ℕ) (kv : Kv) (i : ℕ)
      → id < 2 ^ 64
      → i < 2 ^ 64
      → written ≤ length bytes
      → length bytes ≤ written + fuel
      → off + (length bytes - written) < 2 ^ 64
      → byte_at (write_loop K S fuel id bytes written off kv) id i
        ≡ patched i off
            (length bytes - written)
            (get_or bytes (written + (i - off)) 0)
            (byte_at kv id i)
  unfolding write_loop
  byte_at-write_loop zero id bytes written off kv i a c w f o =
      let none_left : length bytes - written ≡ 0 = omega arith in
      rw none_left (sym (patched_none i off _ (byte_at kv id i)))
  byte_at-write_loop (suc fuel) id bytes written off kv i a c w f o =
      elim (Bool-cases (ltb written (length bytes))) [
        | inr q ↦
            let none_left : length bytes - written ≡ 0 = ground arith in
            rw (q, none_left) (sym (patched_none i off _ (byte_at kv id i)))
        | inl q ↦
            let more : written < length bytes = ltb→lt written (length bytes) q in
            let no_wrap : (off + n) % 2 ^ 64 ≡ off + n = omega arith in
            let left : length bytes - (written + n) ≡ length bytes - written - n = omega arith in
            rw (q, no_wrap)
              (byte_at-write_loop fuel id bytes (written + n) (off + n) after i a c (omega arith)
                  (omega arith) (omega arith)
                ∙ rw
                    (
                      left,
                      byte_at-round id off i chunk kv a (omega arith) c (omega (arith, long)),
                      long,
                    )
                    (patched_twice i off n (length bytes - written) _ _ _ _ (omega arith)
                      (λ h. get_or-slice written (written + n) (i - off) bytes 0 ∙ ground arith)
                      (λ h. ap (λ k. get_or bytes k 0) (omega arith))))
      ]
    where
      n : ℕ
      n = min (page_size - off % page_size) (length bytes - written)

      chunk : Bytes
      chunk = slice written (written + n) bytes

      after : Kv
      after =
          write_page K S id (off / page_size)
            (overwrite (full_page (read_page K S id (off / page_size) kv)) (off % page_size) chunk)
            kv

      long : length chunk ≡ n
      long = length-slice written (written + n) bytes ∙ omega arith

  -- The whole loop of `write`.
  pub byte_at-write :
      (id : ℕ) (bytes : Bytes) (off : ℕ) (kv : Kv) (i : ℕ)
      → id < 2 ^ 64
      → i < 2 ^ 64
      → off + length bytes < 2 ^ 64
      → byte_at (write_loop K S (length bytes) id bytes 0 off kv) id i
        ≡ patched i off (length bytes) (get_or bytes (i - off) 0) (byte_at kv id i)
  byte_at-write id bytes off kv i a c f =
      byte_at-write_loop (length bytes) id bytes 0 off kv i a c (omega arith) (omega arith)
        (omega arith)
      ∙ ap (λ n. patched i off n (get_or bytes (0 + (i - off)) 0) (byte_at kv id i)) (omega arith)
      ∙ ap (λ k. patched i off (length bytes) (get_or bytes k 0) (byte_at kv id i)) (omega arith)
