-- ===== src/Plugins/PageFs/Sizes.antt =====
-- The change of a file's size by `wstat` of `PageFsProvider`.
use native.Mathlib.Decide.{ℕ_discrete}
use fs.Base.{
  same→eqb, ne→eqb, ℕ, zero, suc, ◌+◌, ◌-◌, ◌/◌, ◌%◌, ◌^◌, ◌≤◌, ◌<◌, ◌≡◌, refl, ap, ◌∙◌, sym,
  Option, none, some, arith, eqb, if◌then◌else◌, nat_eq, length-replicate, get_or-replicate,
  text_eq,
}
use fs.Sdk.Provider.{Bytes}
use fs.Plugins.PageFs.Keys
use fs.Plugins.PageFs.Kv.{KvBackend}
use fs.Plugins.PageFs.Node.{page_size, Serde}
use fs.Plugins.PageFs.Store.{read_page, write_page, zero_page}
use fs.Plugins.PageFs.Changes.{delete_range, zero_range}
use fs.Plugins.PageFs.View.{
  page_byte, page-eq, patched, patched_none, patched_twice, byte_at, read_page-write_page,
}

-- What the loops do to the bytes of one page.
one_page :
    (p q k : ℕ) (o page : Option Bytes)
    → page_byte page k ≡ 0
    → page_byte (if eqb p q then page else o) k ≡ patched q p 1 0 (page_byte o k)
one_page p q k o page z = elim (ℕ_discrete p q) [
  | yes e ↦ rw (same→eqb p q e, z) (ground arith)
  | no e ↦ rw (ne→eqb p q e) (ground arith)
]

module _ (K : KvBackend) (S : Serde) where
  open K use {Kv}

  byte_at-delete_page :
      (id p : ℕ) (kv : Kv) (i : ℕ)
      → id < 2 ^ 64
      → p < 2 ^ 64
      → i < 2 ^ 64
      → byte_at K S (K.delete (Keys.page id p) kv) id i
        ≡ patched (i / page_size) p 1 0 (byte_at K S kv id i)
  unfolding read_page
  byte_at-delete_page id p kv i a b c =
      ap (λ o. page_byte o (i % page_size))
        (K.get-delete (Keys.page id p) kv (Keys.page id (i / page_size))
          ∙ rw (page-eq id p (i / page_size) a b (omega arith)) refl)
      ∙ one_page p (i / page_size) (i % page_size) _ none refl

  byte_at-zero_page :
      (id p : ℕ) (kv : Kv) (i : ℕ)
      → id < 2 ^ 64
      → p < 2 ^ 64
      → i < 2 ^ 64
      → byte_at K S (write_page K S id p zero_page kv) id i
        ≡ patched (i / page_size) p 1 0 (byte_at K S kv id i)
  byte_at-zero_page id p kv i a b c =
      ap (λ o. page_byte o (i % page_size))
        (read_page-write_page K S id p (i / page_size) zero_page kv a b (omega arith)
          (omega (arith, length-replicate {A = ℕ} page_size 0)))
      ∙ one_page p (i / page_size) (i % page_size) _ (some zero_page)
          (get_or-replicate page_size 0 (i % page_size))

  pub byte_at-delete_range :
      (n id p : ℕ) (kv : Kv) (i : ℕ)
      → id < 2 ^ 64
      → p + n ≤ 2 ^ 64
      → i < 2 ^ 64
      → byte_at K S (delete_range K S n id p kv) id i
        ≡ patched (i / page_size) p n 0 (byte_at K S kv id i)
  unfolding delete_range
  byte_at-delete_range zero id p kv i a b c = sym (patched_none (i / page_size) p 0 _)
  byte_at-delete_range (suc n) id p kv i a b c =
      let left : suc n - 1 ≡ n = omega arith in
      byte_at-delete_range n id (p + 1) _ i a (omega arith) c
      ∙ rw (byte_at-delete_page id p kv i a (omega arith) c) (
          rw left at (
            patched_twice (i / page_size) p 1 (suc n) 0 0 0 (byte_at K S kv id i) (omega arith)
              (λ h. refl) (λ h. refl)))

  pub byte_at-zero_range :
      (n id p : ℕ) (kv : Kv) (i : ℕ)
      → id < 2 ^ 64
      → p + n ≤ 2 ^ 64
      → i < 2 ^ 64
      → byte_at K S (zero_range K S n id p kv) id i
        ≡ patched (i / page_size) p n 0 (byte_at K S kv id i)
  unfolding zero_range
  byte_at-zero_range zero id p kv i a b c = sym (patched_none (i / page_size) p 0 _)
  byte_at-zero_range (suc n) id p kv i a b c =
      let left : suc n - 1 ≡ n = omega arith in
      byte_at-zero_range n id (p + 1) _ i a (omega arith) c
      ∙ rw (byte_at-zero_page id p kv i a (omega arith) c) (
          rw left at (
            patched_twice (i / page_size) p 1 (suc n) 0 0 0 (byte_at K S kv id i) (omega arith)
              (λ h. refl) (λ h. refl)))
