-- ===== src/Plugins/PageFs/Reads.antt =====
-- The loop of `read` in plugins/pagefs/src/provider.rs.
use fs.Base.{
  ℕ, zero, suc, ◌+◌, ◌-◌, ◌/◌, ◌%◌, ◌≤◌, ◌<◌, min, ◌≡◌, refl, ap, ◌∙◌, sym, inl, inr, Option, none,
  some, arith, ltb, ltb→lt, Bool-cases, length, get_or, slice, length-overwrite, length-slice,
  get_or-overwrite, get_or_past, get_or-slice,
}
use fs.Sdk.Provider.{Bytes}
use fs.Plugins.PageFs.Kv.{KvBackend}
use fs.Plugins.PageFs.Node.{page_size, Serde}
use fs.Plugins.PageFs.Store.{read_page}
use fs.Plugins.PageFs.Files.{copy_page, read_loop}
use fs.Plugins.PageFs.View.{page_byte, patched, patched_none, patched_twice, byte_at}

length-copy_page :
    (start n done : ℕ) (o : Option Bytes) (result : Bytes)
    → length (copy_page start n done o result) ≡ length result
unfolding copy_page
length-copy_page start n done none result = refl
length-copy_page start n done (some page) result = length-overwrite result done _

patched_same : (j done n x : ℕ) → patched j done n x x ≡ x
patched_same j done n x = ground arith

-- One page is copied behind the `done` bytes of a buffer that is 0 from there on.
get_or-copy_page :
    (start n done : ℕ) (o : Option Bytes) (result : Bytes) (j : ℕ)
    → done + n ≤ length result
    → ((k : ℕ) → done ≤ k → get_or result k 0 ≡ 0)
    → get_or (copy_page start n done o result) j 0
      ≡ patched j done n (page_byte o (start + (j - done))) (get_or result j 0)
unfolding copy_page
get_or-copy_page start n done none result j h z = elim (Bool-cases (ltb j done)) [
  | inl q ↦ ground arith
  | inr q ↦ rw (z j (ground arith)) (sym (patched_same j done n 0))
]
get_or-copy_page start n done (some page) result j h z =
    get_or-overwrite result done chunk j 0 (omega (arith, long)) ∙ elim (Bool-cases (ltb j done)) [
      | inl q ↦ ground arith
      | inr q ↦
          let zero_here : get_or result j 0 ≡ 0 = z j (ground arith) in
          rw (long, zero_here, get_or-slice start (start + to_copy) (j - done) page 0)
            (ground (arith, get_or_past page (start + (j - done)) 0))
    ]
  where
    to_copy : ℕ
    to_copy = min n (length page - start)

    chunk : Bytes
    chunk = slice start (start + to_copy) page

    long : length chunk ≡ to_copy
    long = length-slice start (start + to_copy) page ∙ omega arith

module _ (K : KvBackend) (S : Serde) where
  open K use {Kv}

  pub length-read_loop :
      (fuel : ℕ) (kv : Kv) (id total done off : ℕ) (result : Bytes)
      → length (read_loop K S fuel kv id total done off result) ≡ length result
  unfolding read_loop
  length-read_loop zero kv id total done off result = refl
  length-read_loop (suc fuel) kv id total done off result = elim (Bool-cases (ltb done total)) [
    | inr q ↦ rw q refl
    | inl q ↦ rw q (length-read_loop fuel kv id total _ _ _ ∙ length-copy_page _ _ done _ result)
  ]

  -- Two positions of one page.
  byte_at-page :
      (kv : Kv) (id off d : ℕ)
      → off % page_size + d < page_size
      → page_byte (read_page K S id (off / page_size) kv) (off % page_size + d)
        ≡ byte_at K S kv id (off + d)
  byte_at-page kv id off d h =
      let here : (off + d) / page_size ≡ off / page_size = omega arith in
      let there : (off + d) % page_size ≡ off % page_size + d = omega arith in rw (here, there) refl

  -- The loop of `read`: with enough fuel the buffer holds the bytes from `off` on behind its first
  -- `done` ones.
  pub get_or-read_loop :
      (fuel : ℕ) (kv : Kv) (id total done off : ℕ) (result : Bytes) (j : ℕ)
      → length result ≡ total
      → done ≤ total
      → total ≤ done + fuel
      → ((k : ℕ) → done ≤ k → get_or result k 0 ≡ 0)
      → get_or (read_loop K S fuel kv id total done off result) j 0
        ≡ patched j done (total - done) (byte_at K S kv id (off + (j - done))) (get_or result j 0)
  unfolding read_loop
  get_or-read_loop zero kv id total done off result j l d f z =
      let none_left : total - done ≡ 0 = omega arith in
      rw none_left (sym (patched_none j done _ (get_or result j 0)))
  get_or-read_loop (suc fuel) kv id total done off result j l d f z =
      elim (Bool-cases (ltb done total)) [
        | inr q ↦
            let none_left : total - done ≡ 0 = ground arith in
            rw (q, none_left) (sym (patched_none j done _ (get_or result j 0)))
        | inl q ↦
            let more : done < total = ltb→lt done total q in
            let left : total - (done + n) ≡ total - done - n = omega arith in
            rw q (
              get_or-read_loop fuel kv id total (done + n) (off + n) after j
                (length-copy_page _ n done page result ∙ l) (omega arith) (omega arith) zeros
              ∙ rw (left, copied j)
                  (patched_twice j done n (total - done) _ _ _ _ (omega arith)
                    (λ h. byte_at-page kv id off (j - done) (omega arith))
                    (λ h. ap (byte_at K S kv id) (omega arith))))
      ]
    where
      n : ℕ
      n = min (page_size - off % page_size) (total - done)

      page : Option Bytes
      page = read_page K S id (off / page_size) kv

      after : Bytes
      after = copy_page (off % page_size) n done page result

      copied :
          (k : ℕ)
          → get_or after k 0
            ≡ patched k done n (page_byte page (off % page_size + (k - done))) (get_or result k 0)
      copied k = get_or-copy_page (off % page_size) n done page result k (omega arith) z

      zeros : (k : ℕ) → done + n ≤ k → get_or after k 0 ≡ 0
      zeros k h = let z' : get_or result k 0 ≡ 0 = z k (omega arith) in copied k ∙ ground arith
