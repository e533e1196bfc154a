-- ===== src/Plugins/Kv/Entries.antt =====
-- The ordered map of plugins/kv/src/lib.rs and the changes of one entry.
use fs.Base.{
  ℕ, true, false, none, some, ◌≡◌, refl, arith, ◌==◌, Text, text_eq, root, inl, inr, Bool-cases,
  eq_self, nat_eq, ◌∙◌,
}
use fs.Base.Map
use fs.Base.Map.{Map, get, get-remove}
use fs.Base.Order.{
  IsSorted, insert_sorted, insert_sorted-IsSorted, remove-IsSorted, get-insert_sorted,
}
use fs.Plugins.Kv.Provider.{KvEntry, dir, is_dir, new}

pub record IsStore (store : Map Text KvEntry) : Type 0 where
  pub sorted : IsSorted store
  -- The entry of the root, which is a directory.
  pub top : KvEntry
  pub found : get store root ≡ some top
  pub top_dir : is_dir top ≡ true

pub new-IsStore : (now : ℕ) → IsStore (new now).store
unfolding new get
new-IsStore now = record {
  sorted = (tt, tt);
  top = dir 0o755 now;
  found = rw (eq_self root) refl;
  top_dir = refl;
}

-- A new entry where none was.
pub add-IsStore :
    (store : Map Text KvEntry) (path : Text) (entry : KvEntry)
    → IsStore store
    → get store path ≡ none
    → IsStore (insert_sorted store path entry)
add-IsStore store path entry w g = record {
  sorted = insert_sorted-IsSorted store path entry w.sorted;
  top = w.top;
  found = ground (arith, get-insert_sorted store path entry root, w.found);
  top_dir = w.top_dir;
}

-- Another entry of the same kind.
pub put-IsStore :
    (store : Map Text KvEntry) (path : Text) (old entry : KvEntry)
    → IsStore store
    → get store path ≡ some old
    → is_dir entry ≡ is_dir old
    → IsStore (insert_sorted store path entry)
put-IsStore store path old entry w g same = elim (Bool-cases (path == root)) [
  | inl e ↦ record {
    sorted = insert_sorted-IsSorted store path entry w.sorted;
    top = entry;
    found = get-insert_sorted store path entry root ∙ rw e refl;
    top_dir = ground (arith, w.found, w.top_dir);
  }
  | inr e ↦ record {
    sorted = insert_sorted-IsSorted store path entry w.sorted;
    top = w.top;
    found = get-insert_sorted store path entry root ∙ rw e w.found;
    top_dir = w.top_dir;
  }
]

pub remove_one-IsStore :
    (store : Map Text KvEntry) (path : Text)
    → IsStore store
    → (path == root) ≡ false
    → IsStore (Map.remove store path)
remove_one-IsStore store path w e = record {
  sorted = remove-IsSorted store path w.sorted;
  top = w.top;
  found = get-remove store path root ∙ rw e w.found;
  top_dir = w.top_dir;
}
