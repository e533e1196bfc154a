-- ===== src/Plugins/PageFs/Listing.antt =====
-- `list_dir` of plugins/pagefs/src/provider.rs, beside `lookup`.
use mathlib.Core.List.{Memᴰ}
use mathlib.Core.Option.{none-ne-some}
use fs.Base.{
  ℕ, ◌≡◌, refl, ap, ◌∙◌, sym, inl, inr, true, false, none, some, List, [], ◌∷◌, ◌≢◌, root, nat_eq,
  arith, ◌==◌, Bool-cases, Option-cases, length, starts_with_append, Text, text_eq, drop-append,
}
use fs.Base.Words.{from_be_bytes}
use fs.Base.Utf8.{as_bytes}
use fs.Base.Encoding.{IsText, from_utf8-as_bytes}
use fs.Base.Map
use fs.Base.Map.{Map}
use fs.Sdk.Error.{FsError, ok, err, directory_not_empty}
use fs.Sdk.Provider.{Bytes}
use fs.Plugins.PageFs.Keys
use fs.Plugins.PageFs.Kv.{KvBackend}
use fs.Plugins.PageFs.Node
use fs.Plugins.PageFs.Node.{Inode, Serde}
use fs.Plugins.PageFs.Tree.{is_empty_list, remove_kv, remove}
use fs.Plugins.PageFs.Names.{normalize_path, resolve_path}
use fs.Plugins.PageFs.Files.{PageFs}
use fs.Plugins.PageFs.Store.{decoded, entry_of, entries_of, lookup, list_dir}

-- An entry that decodes is among the entries.
entries_of-Mem :
    (skip : ℕ) (m : Map Bytes Bytes) (key value : Bytes) (entry : Text × ℕ)
    → Map.get m key ≡ some value
    → entry_of skip (key, value) ≡ some entry
    → Memᴰ entry (entries_of skip m)
unfolding entries_of Map.get
entries_of-Mem skip [] key value entry e d = cc
entries_of-Mem skip ((k, v) ∷ m) key value entry e d = elim (Bool-cases (k == key)) [
  | inl q ↦
      let same_key : k ≡ key = ground arith in
      let same_value : v ≡ value = ground (arith, q, e) in
      let here : entry_of skip (k, v) ≡ some entry =
        ap (λ x. entry_of skip (x, v)) same_key ∙ ap (λ x. entry_of skip (key, x)) same_value ∙ d in
      rw (entries_of, here) (Memᴰ.head refl)
  | inr q ↦ elim (Option-cases (entry_of skip (k, v))) [
    | inl r ↦ rw (entries_of, r) (entries_of-Mem skip m key value entry (ground (arith, e)) d)
    | inr (x, r) ↦
        rw (entries_of, r) (Memᴰ.tail (entries_of-Mem skip m key value entry (ground (arith, e)) d))
  ]
]

not_empty : {x : Text × ℕ} {xs : List (Text × ℕ)} → Memᴰ x xs → is_empty_list xs ≡ false
not_empty (Memᴰ.head e) = refl
not_empty (Memᴰ.tail d) = refl

ok-ne-err : {u : Unit {0}} {e : FsError} → ok u ≢ err e
ok-ne-err p = cc

module _ (K : KvBackend) (S : Serde) where
  open K use {Kv}

  -- What `lookup` finds in a directory, `list_dir` lists.
  pub list_dir-Mem :
      (dir : ℕ) (name : Text) (child : ℕ) (kv : Kv)
      → IsText name
      → lookup K S dir name kv ≡ some child
      → Memᴰ (name, child) (list_dir K S dir kv)
  unfolding list_dir lookup entry_of Keys.dir_entry
  list_dir-Mem dir name child kv t e = elim (Option-cases (K.get key kv)) [
    | inl g ↦ absurd (none-ne-some child (sym (ap (decoded from_be_bytes) g) ∙ e))
    | inr (value, g) ↦
        let number : from_be_bytes value ≡ some child = sym (ap (decoded from_be_bytes) g) ∙ e in
        entries_of-Mem (length prefix) (K.scan prefix kv) key value (name, child)
          (K.get-scan prefix kv key ∙ rw (starts_with_append prefix (as_bytes name)) g)
          (rw (entry_of, drop-append prefix (as_bytes name), from_utf8-as_bytes name t, number)
            refl)
  ]
    where
      prefix : Bytes
      prefix = Keys.dir_prefix dir

      key : Bytes
      key = Keys.dir_entry dir (as_bytes name)

  -- A directory that `remove` takes away, by its path other than the root, has had no entry: no name
  -- stood for an inode in it.
  pub remove_dir-IsEmpty :
      (path : Text) (m : PageFs K) (id : ℕ) (inode : Inode) (name : Text)
      → (normalize_path path == root) ≡ false
      → resolve_path K S (normalize_path path) m.kv ≡ ok (id, inode)
      → Node.is_directory inode ≡ true
      → (remove K S path m).1 ≡ ok tt
      → IsText name
      → lookup K S id name m.kv ≡ none
  unfolding remove remove_kv
  remove_dir-IsEmpty path m id inode name a b c r t =
      elim (Option-cases (lookup K S id name m.kv)) [
        | inl e ↦ e
        | inr (child, e) ↦
            let some_entry : is_empty_list (list_dir K S id m.kv) ≡ false =
              not_empty (list_dir-Mem id name child m.kv t e) in
            let refused : (remove K S path m).1 ≡ err (directory_not_empty (normalize_path path)) =
              rw (remove_kv, a, b, c, some_entry) refl in
            absurd (ok-ne-err (sym r ∙ refused))
      ]
