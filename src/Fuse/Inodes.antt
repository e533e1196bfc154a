-- ===== src/Fuse/Inodes.antt =====
-- fuse/src/inode.rs: the inode numbers of the paths that the kernel has seen, and their cached
-- attributes. Each method runs alone; `Attr` is fuser's `FileAttr`, and a time is in nanoseconds.
pub mod Consistent
pub mod Numbers
use fs.Base.{
  ℕ, ◌+◌, ◌-◌, ◌%◌, ◌^◌, ◌||◌, Option, none, some, [], ◌∷◌, ltb, if◌then◌else◌, ◌==◌, nat_eq, Text,
  text_eq, slash, root, is_empty, starts_with, trim_end_matches,
}
use fs.Base.Map.{Map, get, insert, remove}

abbrev pub root_ino : ℕ
root_ino = 1

pub record CachedAttr (Attr : Type 0) : Type 0 where
  pub attr : Attr
  pub cached_at : ℕ

pub record InodeTable (Attr : Type 0) : Type 0 where
  pub next_ino : ℕ
  pub path_to_ino : Map Text ℕ
  pub ino_to_path : Map ℕ Text
  pub ino_to_attr : Map ℕ (CachedAttr Attr)
  pub cache_ttl : ℕ

-- It takes every final slash away, also those of `//`, which becomes the empty text.
unfoldable pub normalize_path : Text → Text
unfolding starts_with trim_end_matches
normalize_path path =
    if is_empty path || path == root
    then root
    else trim_end_matches (if starts_with path root then path else slash ∷ path) slash

module _ {Attr : Type 0} where
  unfoldable pub new : ℕ → InodeTable Attr
  unfolding insert
  new cache_ttl = record {
    next_ino = root_ino + 1;
    path_to_ino = insert [] root root_ino;
    ino_to_path = insert [] root_ino root;
    ino_to_attr = [];
    cache_ttl = cache_ttl;
  }

  -- The counter is a `u64`, which wraps around.
  unfoldable pub get_or_create_ino : Text → InodeTable Attr → InodeTable Attr × ℕ
  unfolding get insert
  get_or_create_ino path t =
      let normalized = normalize_path path in
      elim (get t.path_to_ino normalized) [
        | some ino ↦ (t, ino)
        | none ↦ (
          record t {
            next_ino = (t.next_ino + 1) % 2 ^ 64;
            path_to_ino = insert t.path_to_ino normalized t.next_ino;
            ino_to_path = insert t.ino_to_path t.next_ino normalized;
          },
          t.next_ino,
        )
      ]

  unfoldable pub get_ino : Text → InodeTable Attr → Option ℕ
  get_ino path t = get t.path_to_ino (normalize_path path)

  unfoldable pub get_path : ℕ → InodeTable Attr → Option Text
  get_path ino t = get t.ino_to_path ino

  unfoldable pub remove_path : Text → InodeTable Attr → InodeTable Attr
  unfolding get remove
  remove_path path t =
      let normalized = normalize_path path in
      elim (get t.path_to_ino normalized) [
        | none ↦ t
        | some ino ↦ record t {
          path_to_ino = remove t.path_to_ino normalized;
          ino_to_path = remove t.ino_to_path ino;
          ino_to_attr = remove t.ino_to_attr ino;
        }
      ]

  unfoldable pub rename : Text → Text → InodeTable Attr → InodeTable Attr
  unfolding get insert remove
  rename old_path new_path t =
      let old_normalized = normalize_path old_path in
      let new_normalized = normalize_path new_path in
      elim (get t.path_to_ino old_normalized) [
        | none ↦ t
        | some ino ↦ record t {
          path_to_ino = insert (remove t.path_to_ino old_normalized) new_normalized ino;
          ino_to_path = insert t.ino_to_path ino new_normalized;
        }
      ]

  unfoldable pub cache_attr : ℕ → ℕ → Attr → InodeTable Attr → InodeTable Attr
  unfolding insert
  cache_attr now ino attr t = record t {
    ino_to_attr = insert t.ino_to_attr ino (record { attr = attr; cached_at = now });
  }

  unfoldable pub fresh_attr : ℕ → ℕ → Option (CachedAttr Attr) → Option Attr
  fresh_attr now ttl none = none
  fresh_attr now ttl (some cached) =
      if ltb (now - cached.cached_at) ttl then some cached.attr else none

  unfoldable pub get_cached_attr : ℕ → ℕ → InodeTable Attr → Option Attr
  unfolding get fresh_attr
  get_cached_attr now ino t = fresh_attr now t.cache_ttl (get t.ino_to_attr ino)

  unfoldable pub invalidate_attr : ℕ → InodeTable Attr → InodeTable Attr
  unfolding remove
  invalidate_attr ino t = record t { ino_to_attr = remove t.ino_to_attr ino }

  unfoldable pub invalidate_all : InodeTable Attr → InodeTable Attr
  invalidate_all t = record t { ino_to_attr = [] }
