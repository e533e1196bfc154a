-- ===== src/Fuse/Inodes/Consistent.antt =====
-- The map between paths and inode numbers of fuse/src/inode.rs.
use mathlib.Core.Path.{subst}
use fs.Base.{
  ℕ, ◌+◌, ◌^◌, ◌<◌, ◌≡◌, ◌≢◌, inl, inr, none, some, arith, nat_eq, Option-cases, Text, text_eq,
}
use fs.Base.Map.{get, remove, get-insert, get-remove, insert}
use fs.Fuse.Inodes.{new, InodeTable, normalize_path, get_or_create_ino, remove_path, rename}

-- A path that has a number is the path of that number, and every number was given out.
pub record IsConsistent {Attr : Type 0} (t : InodeTable Attr) : Type 0 where
  pub forward :
      (path : Text) (ino : ℕ)
      → get t.path_to_ino path ≡ some ino
      → get t.ino_to_path ino ≡ some path
  pub given : (ino : ℕ) → get t.ino_to_path ino ≢ none → ino < t.next_ino

pub new-IsConsistent : {Attr : Type 0} (ttl : ℕ) → IsConsistent {Attr = Attr} (new ttl)
unfolding new get insert
new-IsConsistent ttl = record { forward = λ p i h. ground arith; given = λ i h. ground arith }

module _ {Attr : Type 0} (t : InodeTable Attr) (valid : IsConsistent t) where
  unused : get t.ino_to_path t.next_ino ≡ none
  unused = elim (Option-cases (get t.ino_to_path t.next_ino)) [
    | inl e ↦ e
    | inr (s, e) ↦ absurd (omega (arith, valid.given t.next_ino (λ h. cc (e, h))))
  ]

  -- No two paths share a number.
  same_path :
      (p q : Text) (ino : ℕ)
      → get t.path_to_ino p ≡ some ino
      → get t.path_to_ino q ≡ some ino
      → p ≡ q
  same_path p q ino h k = ground (arith, valid.forward p ino h, valid.forward q ino k)

  -- A new number keeps the table consistent as long as the counter of 64 bits does not wrap.
  pub get_or_create-IsConsistent :
      (path : Text) → t.next_ino + 1 < 2 ^ 64 → IsConsistent (get_or_create_ino path t).0
  unfolding get_or_create_ino
  get_or_create-IsConsistent path small =
      let n = normalize_path path in
      elim (Option-cases (get t.path_to_ino n)) [
        | inr (ino, e) ↦ subst IsConsistent (ground (arith, e)) valid
        | inl e ↦ record {
          forward = λ p i h. ground (
            arith,
            e,
            get-insert t.path_to_ino n t.next_ino p,
            get-insert t.ino_to_path t.next_ino n i,
            valid.forward p i,
            unused,
          );
          given = λ i h. ground (arith, e, get-insert t.ino_to_path t.next_ino n i, valid.given i);
        }
      ]

  -- Removing a path keeps the table consistent.
  pub remove-IsConsistent : (path : Text) → IsConsistent (remove_path path t)
  unfolding remove_path
  remove-IsConsistent path =
      let n = normalize_path path in
      elim (Option-cases (get t.path_to_ino n)) [
        | inl e ↦ subst IsConsistent (ground (arith, e)) valid
        | inr (ino, e) ↦ record {
          forward = λ p i h. ground (
            arith,
            e,
            get-remove t.path_to_ino n p,
            get-remove t.ino_to_path ino i,
            valid.forward p i,
            valid.forward n ino e,
          );
          given = λ i h. ground (arith, e, get-remove t.ino_to_path ino i, valid.given i);
        }
      ]

  -- A rename, onto a path in use too, keeps the table consistent: a path that has a number is still
  -- the path of that number.
  pub rename-IsConsistent : (old_path new_path : Text) → IsConsistent (rename old_path new_path t)
  unfolding rename
  rename-IsConsistent old_path new_path =
      let o = normalize_path old_path in
      let n = normalize_path new_path in
      elim (Option-cases (get t.path_to_ino o)) [
        | inl e ↦ subst IsConsistent (ground (arith, e)) valid
        | inr (ino, e) ↦ record {
          forward = λ p i h. ground (
            arith,
            e,
            get-insert (remove t.path_to_ino o) n ino p,
            get-remove t.path_to_ino o p,
            get-insert t.ino_to_path ino n i,
            valid.forward p i,
            valid.forward o ino e,
          );
          given = λ i h. ground (
            arith,
            e,
            get-insert t.ino_to_path ino n i,
            valid.given i,
            valid.given ino,
            valid.forward o ino e,
          );
        }
      ]
