-- ===== src/Fuse/Inodes/Numbers.antt =====
-- What the inode table answers after its changes, in fuse/src/inode.rs.
use fs.Base.{
  ℕ, ◌≡◌, ◌≢◌, inl, inr, none, some, arith, nat_eq, Option-cases, Text, text_eq, if◌then◌else◌,
  ◌==◌,
}
use fs.Base.Map.{get, remove, get-insert, get-remove}
use fs.Fuse.Inodes.{
  InodeTable, normalize_path, get_or_create_ino, get_ino, get_path, remove_path, rename,
}
use fs.Fuse.Inodes.Consistent.{IsConsistent}

module _ {Attr : Type 0} (t : InodeTable Attr) (valid : IsConsistent t) where
  -- In a consistent table a path that has no number gets the counter's. The number that a path gets is found by the path
  -- and names the normalized path, and every other path keeps what it had.
  pub get_or_create_lem :
      (path q : Text)
      → ((get_or_create_ino path t).1 ≡ elim (get_ino path t) [ some i ↦ i | none ↦ t.next_ino ])
        × (get_path (get_or_create_ino path t).1 (get_or_create_ino path t).0
            ≡ some (normalize_path path))
        × (get_ino q (get_or_create_ino path t).0 ≡ (
            if normalize_path path == normalize_path q
            then some (get_or_create_ino path t).1
            else get_ino q t))
  unfolding get_or_create_ino get_ino get_path
  get_or_create_lem path q =
      let n = normalize_path path in
      elim (Option-cases (get t.path_to_ino n)) [
        | inr (i, e) ↦
            (ground (arith, e), ground (arith, e, valid.forward n i e), ground (arith, e))
        | inl e ↦ (
          ground (arith, e),
          ground (arith, e, get-insert t.ino_to_path t.next_ino n t.next_ino),
          ground (arith, e, get-insert t.path_to_ino n t.next_ino (normalize_path q)),
        )
      ]

  -- In a consistent table a removed path has no number and its number no path; a path that is created again gets
  -- another number.
  pub remove_lem :
      (path : Text) (ino : ℕ)
      → get_ino path t ≡ some ino
      → (get_ino path (remove_path path t) ≡ none)
        × (get_path ino (remove_path path t) ≡ none)
        × ((get_or_create_ino path (remove_path path t)).1 ≢ ino)
  unfolding get_or_create_ino get_ino get_path remove_path
  remove_lem path ino h =
      let n = normalize_path path in
      let gone = get-remove t.path_to_ino n n in
      (
        ground (arith, h, gone),
        ground (arith, h, get-remove t.ino_to_path ino ino),
        λ same. ground (arith, h, gone, valid.forward n ino h, valid.given ino),
      )

  -- In a consistent table a renamed path takes its number along: the new path has it, it names the new path, the old path
  -- has none, and every third path keeps its own, also one below the old path. The three paths are
  -- distinct after normalizing.
  rename_lem :
      (old_path new_path q : Text) (ino : ℕ)
      → get_ino old_path t ≡ some ino
      → normalize_path old_path ≢ normalize_path new_path
      → normalize_path q ≢ normalize_path old_path
      → normalize_path q ≢ normalize_path new_path
      → (get_ino new_path (rename old_path new_path t) ≡ some ino)
        × (get_path ino (rename old_path new_path t) ≡ some (normalize_path new_path))
        × (get_ino old_path (rename old_path new_path t) ≡ none)
        × (get_ino q (rename old_path new_path t) ≡ get_ino q t)
  unfolding get_ino get_path rename
  rename_lem old_path new_path q ino h d d1 d2 =
      let o = normalize_path old_path in
      let n = normalize_path new_path in
      let r = remove t.path_to_ino o in
      let p = normalize_path q in
      (
        ground (arith, h, get-insert r n ino n),
        ground (arith, h, get-insert t.ino_to_path ino n ino),
        ground (arith, h, get-insert r n ino o, get-remove t.path_to_ino o o, d),
        ground (arith, h, get-insert r n ino p, get-remove t.path_to_ino o p, d1, d2),
      )

  -- In a consistent table a rename onto a path that has another number leaves that number naming the path, though the
  -- path has the renamed number.
  pub rename_onto :
      (old_path new_path : Text) (ino replaced : ℕ)
      → get_ino old_path t ≡ some ino
      → get_ino new_path t ≡ some replaced
      → ino ≢ replaced
      → (get_path replaced (rename old_path new_path t) ≡ some (normalize_path new_path))
        × (get_ino new_path (rename old_path new_path t) ≡ some ino)
  unfolding get_ino get_path rename
  rename_onto old_path new_path ino replaced h k d =
      let o = normalize_path old_path in
      let n = normalize_path new_path in
      (
        ground (arith, h, get-insert t.ino_to_path ino n replaced, valid.forward n replaced k, d),
        ground (arith, h, get-insert (remove t.path_to_ino o) n ino n),
      )
