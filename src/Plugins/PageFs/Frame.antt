-- ===== src/Plugins/PageFs/Frame.antt =====
-- Which records of the store of PageFs a change of another record leaves alone.
use fs.Base.{
  ℕ, zero, suc, ◌/◌, ◌%◌, ◌^◌, ◌<◌, ◌≡◌, ◌≢◌, refl, ap, ◌∙◌, sym, inl, inr, none, some, arith, ltb,
  if◌then◌else◌, Bool-cases, eq_self, ne→false, length, Text, text_eq,
}
use fs.Base.Utf8.{as_bytes}
use fs.Sdk.Provider.{Bytes}
use fs.Plugins.PageFs.Keys
use fs.Plugins.PageFs.Keys.{page-ne-inode, dir_entry-ne-inode}
use fs.Plugins.PageFs.Kv.{KvBackend}
use fs.Plugins.PageFs.Node.{page_size, Inode, Serde}
use fs.Plugins.PageFs.Store.{decoded, load_inode, save_inode, lookup, read_page, write_page}
use fs.Plugins.PageFs.Files.{write_loop}
use fs.Plugins.PageFs.View.{page_byte, byte_at}

module _ (K : KvBackend) (S : Serde) where
  open K use {Kv}

  pub load_inode-save_inode :
      (inode : Inode) (id : ℕ) (kv : Kv)
      → inode.id ≡ id
      → load_inode K S id (save_inode K S inode kv) ≡ some inode
  unfolding load_inode save_inode
  load_inode-save_inode inode id kv e =
      ap (λ k. load_inode K S k (save_inode K S inode kv)) (sym e)
      ∙ ap (decoded S.inode_from_slice) (
          K.get-set (Keys.inode inode.id) (S.inode_to_vec inode) kv (Keys.inode inode.id)
          ∙ ap (λ b. if b then some (S.inode_to_vec inode) else K.get (Keys.inode inode.id) kv)
              (eq_self (Keys.inode inode.id)))
      ∙ S.inode_roundtrip inode

  pub get-set_other :
      (key j value : Bytes) (kv : Kv) → key ≢ j → K.get j (K.set key value kv) ≡ K.get j kv
  get-set_other key j value kv e = K.get-set key value kv j ∙ rw (ne→false key j e) refl

  pub get-set_same : (key value : Bytes) (kv : Kv) → K.get key (K.set key value kv) ≡ some value
  get-set_same key value kv = K.get-set key value kv key ∙ rw (eq_self key) refl

  -- A deletion changes no other key.
  pub get-delete_other :
      (key j : Bytes) (kv : Kv) → key ≢ j → K.get j (K.delete key kv) ≡ K.get j kv
  get-delete_other key j kv e = K.get-delete key kv j ∙ rw (ne→false key j e) refl

  pub get-delete_same : (key : Bytes) (kv : Kv) → K.get key (K.delete key kv) ≡ none
  get-delete_same key kv = K.get-delete key kv key ∙ rw (eq_self key) refl

  -- Saving an inode changes no other record.
  pub get-save_inode :
      (inode : Inode) (key : Bytes) (kv : Kv)
      → Keys.inode inode.id ≢ key
      → K.get key (save_inode K S inode kv) ≡ K.get key kv
  unfolding save_inode
  get-save_inode inode key kv e =
      K.get-set (Keys.inode inode.id) (S.inode_to_vec inode) kv key ∙ rw (ne→false _ key e) refl

  pub get-write_page :
      (id n : ℕ) (page key : Bytes) (kv : Kv)
      → Keys.page id n ≢ key
      → K.get key (write_page K S id n page kv) ≡ K.get key kv
  unfolding write_page
  get-write_page id n page key kv e =
      K.get-set (Keys.page id n) _ kv key ∙ rw (ne→false _ key e) refl

  -- The loop of `write` changes pages of its file only.
  pub get-write_loop :
      (fuel id : ℕ) (bytes : Bytes) (written off : ℕ) (kv : Kv) (key : Bytes)
      → off < 2 ^ 64
      → ((n : ℕ) → n < 2 ^ 64 → Keys.page id n ≢ key)
      → K.get key (write_loop K S fuel id bytes written off kv) ≡ K.get key kv
  unfolding write_loop
  get-write_loop zero id bytes written off kv key o e = refl
  get-write_loop (suc fuel) id bytes written off kv key o e =
      elim (Bool-cases (ltb written (length bytes))) [
        | inr q ↦ rw q refl
        | inl q ↦ rw q (
            get-write_loop fuel id bytes _ _ _ key (omega arith) e
            ∙ get-write_page id (off / page_size) _ key kv (e (off / page_size) (omega arith)))
      ]

  pub byte_at-save_inode :
      (inode : Inode) (kv : Kv) (id i : ℕ)
      → byte_at K S (save_inode K S inode kv) id i ≡ byte_at K S kv id i
  unfolding read_page
  byte_at-save_inode inode kv id i =
      ap (λ o. page_byte o (i % page_size))
        (get-save_inode inode (Keys.page id (i / page_size)) kv
          (λ e. page-ne-inode id (i / page_size) inode.id (sym e)))

  pub lookup-save_inode :
      (inode : Inode) (kv : Kv) (id : ℕ) (name : Text)
      → lookup K S id name (save_inode K S inode kv) ≡ lookup K S id name kv
  unfolding lookup
  lookup-save_inode inode kv id name = ap (decoded _) (
      get-save_inode inode (Keys.dir_entry id (as_bytes name)) kv
        (λ e. dir_entry-ne-inode id inode.id (as_bytes name) (sym e)))
