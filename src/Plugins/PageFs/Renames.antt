-- ===== src/Plugins/PageFs/Renames.antt =====
-- `rename` of `PageFsProvider`.
use fs.Base.{
  ℕ, ◌^◌, ◌<◌, ◌≡◌, ◌≢◌, refl, ap, ◌∙◌, false, none, some, if◌then◌else◌, ◌==◌, Text, text_eq,
  eq_self, ne→false,
}
use fs.Base.Words.{from_be_bytes, to_be_bytes, from_be_bytes-to_be_bytes}
use fs.Base.Utf8.{as_bytes}
use fs.Sdk.Error.{ok, err, FsError}
use fs.Plugins.PageFs.Keys
use fs.Plugins.PageFs.Kv.{KvBackend}
use fs.Plugins.PageFs.Node.{Inode, Serde}
use fs.Plugins.PageFs.Store.{decoded, link, unlink, lookup}
use fs.Plugins.PageFs.Names.{resolve_path, resolve_parent}
use fs.Plugins.PageFs.Frame.{get-delete_same}
use fs.Plugins.PageFs.Changes.{rename_path, replace_target, move_entry, link_new, rename}

module _ (K : KvBackend) (S : Serde) where
  open K use {Kv}

  pub lookup-link :
      (parent : ℕ) (name : Text) (child : ℕ) (kv : Kv)
      → child < 2 ^ 64
      → lookup K S parent name (link K S parent name child kv) ≡ some child
  unfolding lookup link
  lookup-link parent name child kv h =
      ap (decoded from_be_bytes) (
        K.get-set (Keys.dir_entry parent (as_bytes name)) (to_be_bytes child) kv
          (Keys.dir_entry parent (as_bytes name))
        ∙ ap
            (λ b.
              if b
              then some (to_be_bytes child)
              else K.get (Keys.dir_entry parent (as_bytes name)) kv)
            (eq_self (Keys.dir_entry parent (as_bytes name))))
      ∙ from_be_bytes-to_be_bytes child h

  lookup-unlink :
      (parent : ℕ) (name : Text) (kv : Kv)
      → lookup K S parent name (unlink K S parent name kv) ≡ none
  unfolding lookup unlink
  lookup-unlink parent name kv =
      ap (decoded from_be_bytes) (get-delete_same K S (Keys.dir_entry parent (as_bytes name)) kv)

  lookup-link_other :
      (parent : ℕ) (name : Text) (dir : ℕ) (entry : Text) (child : ℕ) (kv : Kv)
      → Keys.dir_entry dir (as_bytes entry) ≢ Keys.dir_entry parent (as_bytes name)
      → lookup K S parent name (link K S dir entry child kv) ≡ lookup K S parent name kv
  unfolding lookup link
  lookup-link_other parent name dir entry child kv e = ap (decoded from_be_bytes) (
      K.get-set (Keys.dir_entry dir (as_bytes entry)) (to_be_bytes child) kv
        (Keys.dir_entry parent (as_bytes name))
      ∙ rw (ne→false _ _ e) refl)

  -- A rename of what is found at the old path, with nothing at the new one.
  module _ (old_path new_name : Text) (kv : Kv) (src : ℕ) (inode : Inode) (e : FsError) (parent : ℕ)
      (name : Text) (moves : (old_path == rename_path old_path new_name) ≡ false)
      (found : resolve_path K S old_path kv ≡ ok (src, inode))
      (free : resolve_path K S (rename_path old_path new_name) kv ≡ err e)
      (place : resolve_parent K S old_path kv ≡ ok (parent, name)) where
    replace_free : replace_target K S (rename_path old_path new_name) inode kv ≡ (kv, ok tt)
    unfolding replace_target
    replace_free = rw (replace_target, free) refl

    rename_moves :
        rename K S old_path new_name kv
        ≡ link_new K S (rename_path old_path new_name) src (unlink K S parent name kv)
    unfolding rename move_entry
    rename_moves =
        rw (rename, moves, found, replace_free, ap (λ r. r.0) replace_free, move_entry, place)
          (ap (λ r. link_new K S (rename_path old_path new_name) src (unlink K S parent name r.0))
            replace_free)

    -- A rename to a path where nothing is found, whose directory is found once the old name is
    -- gone, succeeds: the new name stands for the inode, and the old name, if it is another entry,
    -- for none.
    pub rename_to_free :
        (dir : ℕ) (entry : Text)
        → resolve_parent K S (rename_path old_path new_name) (unlink K S parent name kv)
          ≡ ok (dir, entry)
        → src < 2 ^ 64
        → Keys.dir_entry dir (as_bytes entry) ≢ Keys.dir_entry parent (as_bytes name)
        → ((rename K S old_path new_name kv).1 ≡ ok tt)
          × (lookup K S dir entry (rename K S old_path new_name kv).0 ≡ some src)
          × (lookup K S parent name (rename K S old_path new_name kv).0 ≡ none)
    unfolding link_new
    rename_to_free dir entry to h d =
        rw (rename_moves, link_new, to)
          (
            refl,
            lookup-link dir entry src _ h,
            lookup-link_other parent name dir entry src _ d ∙ lookup-unlink parent name kv,
          )

    -- A rename to a path where nothing is found, whose directory is not found once the old name is
    -- gone, fails, but the old name is gone all the same: nothing names the inode at its old place.
    pub rename_loses :
        (e' : FsError)
        → resolve_parent K S (rename_path old_path new_name) (unlink K S parent name kv) ≡ err e'
        → ((rename K S old_path new_name kv).1 ≡ err e')
          × (lookup K S parent name (rename K S old_path new_name kv).0 ≡ none)
    unfolding link_new
    rename_loses e' to = rw (rename_moves, link_new, to) (refl, lookup-unlink parent name kv)
