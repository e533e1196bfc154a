-- ===== src/Plugins/Kv/Listing.antt =====
-- The listing of a directory and the removal of an entry in plugins/kv/src/lib.rs, which both walk over
-- a range of the ordered map.
use fs.Base.{
  true, false, some, [], ◌∷◌, ◌++◌, ◌≡◌, refl, ap, ◌∙◌, arith, Text, text_eq, root, starts_with,
  Bool-cases, inl, inr, ◌≢◌, ne→false, ◌↔◌, is_empty, contains, slash, strip, starts_with_append,
  sym, ◌==◌,
}
use fs.Base.Map.{Map, get}
use fs.Base.Order.{IsSorted}
use fs.Base.Ranges.{range-prefixed, prefixed}
use fs.Sdk.Error.{ok, err, directory_not_empty}
use fs.Plugins.Kv.Provider.{
  KvProvider, KvEntry, is_dir, normalize_path, below, is_child, child_infos, readdir, has_children,
  remove,
}

-- A child has the prefix of its directory.
is_child-prefix : (path k : Text) → starts_with k (below path) ≡ false → is_child path k ≡ false
unfolding is_child
is_child-prefix path k h = ground arith

child_infos-prefixed :
    (path : Text) (m : Map Text KvEntry)
    → child_infos path (prefixed (below path) m) ≡ child_infos path m
child_infos-prefixed path [] = refl
child_infos-prefixed path ((k, entry) ∷ m) =
    ground (arith, child_infos-prefixed path m, is_child-prefix path k)

-- A key that stands directly in a directory: its path, a `/` and a name without a `/`.
abbrev pub IsChild : Text → Text → Type 0
IsChild path k =
    (name : Text) × (k ≡ below path ++ name)
    × (is_empty name ≡ false)
    × (contains name slash ≡ false)

strip-starts_with : (s p : Text) → starts_with s p ≡ true → s ≡ p ++ strip s p
unfolding starts_with strip
strip-starts_with s [] h = refl
strip-starts_with [] (c ∷ p) h = cc
strip-starts_with (d ∷ s) (c ∷ p) h = ground (arith, strip-starts_with s p)

strip-append : (p s : Text) → strip (p ++ s) p ≡ s
unfolding strip
strip-append [] s = refl
strip-append (c ∷ p) s = strip-append p s

strip-root : (p : Text) → is_empty (strip root (p ++ root)) ≡ true
unfolding strip
strip-root [] = refl
strip-root (c ∷ []) = refl
strip-root (c ∷ d ∷ p) = refl

-- Behind the prefix of a directory, the path of the root has no name.
strip-below : (path : Text) → is_empty (strip root (below path)) ≡ true
unfolding strip
strip-below path = elim (Bool-cases (path == root)) [
  | inl q ↦ rw q refl
  | inr q ↦ rw q (strip-root path)
]

is_child-IsChild : (path k : Text) → is_child path k ≡ true → IsChild path k
unfolding is_child
is_child-IsChild path k h =
    let starts : starts_with k (below path) ≡ true = ground arith in
    let named : is_empty (strip k (below path)) ≡ false = ground arith in
    let last : contains (strip k (below path)) slash ≡ false = ground arith in
    (strip k (below path), strip-starts_with k (below path) starts, named, last)

append-ne-root : (path name : Text) → is_empty name ≡ false → below path ++ name ≢ root
append-ne-root path name named e =
    let rest : strip root (below path) ≡ name =
      sym (ap (λ s. strip s (below path)) e) ∙ strip-append (below path) name in
    let none_left = strip-below path in cc

IsChild-is_child :
    (path name : Text)
    → is_empty name ≡ false
    → contains name slash ≡ false
    → is_child path (below path ++ name) ≡ true
unfolding is_child
IsChild-is_child path name named last =
    rw
      (
        ne→false (below path ++ name) root (append-ne-root path name named),
        starts_with_append (below path) name,
        strip-append (below path) name,
        named,
        last,
      )
      refl

is_child_iff : (path k : Text) → (is_child path k ≡ true) ↔ IsChild path k
is_child_iff path k = (
  is_child-IsChild path k,
  λ (name, e, named, last). ap (is_child path) e ∙ IsChild-is_child path name named last,
)

-- The listing of a directory of an ordered store is of all the keys that `is_child` takes, whatever
-- the range it walks over, and these are its path, a `/` and a name that is not empty and has no `/`.
pub readdir_lem :
    (path : Text) (m : KvProvider) (entry : KvEntry)
    → IsSorted m.store
    → get m.store (normalize_path path) ≡ some entry
    → is_dir entry ≡ true
    → (readdir path m ≡ ok (child_infos (normalize_path path) m.store))
      × ((k : Text) → (is_child (normalize_path path) k ≡ true) ↔ IsChild (normalize_path path) k)
unfolding readdir
readdir_lem path m entry s g d =
    let p = normalize_path path in
    let walk = ap (λ entries. ok (child_infos p entries)) (range-prefixed (below p) m.store s) in
    let taken = ap (λ infos. ok infos) (child_infos-prefixed p m.store) in
    (rw (readdir, g, d) (walk ∙ taken), is_child_iff p)

some-prefixed :
    (p k : Text) (m : Map Text KvEntry) (entry : KvEntry)
    → get m k ≡ some entry
    → starts_with k p ≡ true
    → (j : Text × KvEntry) × (rest : Map Text KvEntry) × (prefixed p m ≡ j ∷ rest)
unfolding get
some-prefixed p k [] entry g h = cc
some-prefixed p k ((i, e) ∷ m) entry g h = elim (Bool-cases (starts_with i p)) [
  | inl q ↦ ((i, e), prefixed p m, rw q refl)
  | inr q ↦
      let later : get m k ≡ some entry = ground arith in
      let (j, rest, found) = some-prefixed p k m entry later h in (j, rest, rw q found)
]

-- A directory of an ordered store with an entry below it is not removed: the call answers with an error
-- and changes nothing.
pub remove-below :
    (path k : Text) (m : KvProvider) (entry : KvEntry)
    → IsSorted m.store
    → normalize_path path ≢ root
    → get m.store k ≡ some entry
    → starts_with k (normalize_path path ++ root) ≡ true
    → remove path m ≡ (m, err (directory_not_empty (normalize_path path)))
unfolding remove has_children
remove-below path k m entry s n g h =
    let p = normalize_path path in
    let (j, rest, found) = some-prefixed (p ++ root) k m.store entry g h in
    rw (remove, has_children, ne→false p root n, range-prefixed (p ++ root) m.store s, found) refl
