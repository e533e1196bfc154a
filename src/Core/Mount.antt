-- ===== src/Core/Mount.antt =====
-- core/src/mount.rs: the mount table. A provider is known by its identity (`Arc::ptr_eq`).
pub mod Best
pub mod Resolve
pub mod Table
use fs.Base.{
  ℕ, Bool, ◌&&◌, Option, none, some, List, [], ◌∷◌, ◌==◌, text_eq, if◌then◌else◌, Text, root,
  starts_with, strip, length, map,
}
use fs.Base.Map.{Map, get, remove, contains_key}
use fs.Base.Order.{text_lt, insert_sorted}
use fs.Sdk.Error.{FsResult, ok, err, not_found, already_exists}
pub use fs.Sdk.Provider.{ProviderId}
use fs.Base.Whitespace.{trim}
use fs.Core.Paths.{normalize_path}

pub record MountPoint : Type 0 where
  pub path : Text
  pub provider_name : Text

pub record MountEntry : Type 0 where
  pub mount_point : MountPoint
  pub provider : ProviderId

pub record MountTable : Type 0 where
  pub mounts : Map Text MountEntry

abbrev pub new : MountTable
new = record { mounts = [] }

unfoldable pub normalize_mount_path : Text → Text
normalize_mount_path path = normalize_path (trim path)

unfoldable pub mount : Text → Text → ProviderId → MountTable → MountTable × FsResult (Unit {0})
mount path provider_name provider t =
    let path' = normalize_mount_path path in
    if contains_key t.mounts path' then (t, err (already_exists path')) else (
      record {
        mounts = insert_sorted t.mounts path' (record {
          mount_point = record { path = path'; provider_name = provider_name };
          provider = provider;
        });
      },
      ok tt,
    )

unfoldable pub unmount : Text → MountTable → MountTable × FsResult ProviderId
unmount path t =
    let path' = normalize_mount_path path in
    elim (get t.mounts path') [
      | none ↦ (t, err (not_found path'))
      | some e ↦ (record { mounts = remove t.mounts path' }, ok e.provider)
    ]

-- `mounts.range(..=path).rev()`, in front of what was collected so far.
unfoldable pub range_rev : Map Text MountEntry → Text → Map Text MountEntry → Map Text MountEntry
range_rev [] path acc = acc
range_rev ((k, e) ∷ m) path acc = range_rev m path (if text_lt path k then acc else (k, e) ∷ acc)

-- The next byte after the mount path is a slash.
unfoldable pub slash_next : Text → Text → Bool
unfolding strip starts_with
slash_next path mount_path = starts_with (strip path mount_path) root

-- The body of the loop of `resolve`: the early returns, or `none` to go on.
unfoldable pub resolve_at : Text → Text → MountEntry → Option (ProviderId × Text)
resolve_at path mount_path entry =
    if path == mount_path
    then some (entry.provider, root)
    else if mount_path == root
    then some (entry.provider, path)
    else if starts_with path mount_path && slash_next path mount_path
    then some (entry.provider, strip path mount_path)
    else none

unfoldable pub resolve_loop : Text → Map Text MountEntry → Option (ProviderId × Text)
resolve_loop path [] = none
resolve_loop path ((k, e) ∷ m) = elim (resolve_at path k e) [
  | some r ↦ some r
  | none ↦ resolve_loop path m
]

unfoldable pub resolve : Text → MountTable → FsResult (ProviderId × Text)
resolve path t =
    let path' = normalize_mount_path path in
    elim (resolve_loop path' (range_rev t.mounts path' [])) [
      | some r ↦ ok r
      | none ↦ elim (get t.mounts root) [
        | some entry ↦ ok (entry.provider, path')
        | none ↦ err (not_found path')
      ]
    ]

unfoldable pub list_mounts : MountTable → List MountPoint
list_mounts t = map (λ (e : Text × MountEntry). e.1.mount_point) t.mounts

unfoldable pub get_mount_info :
    {C : Type 0} → (ProviderId → C) → Text → MountTable → Option (MountPoint × C)
get_mount_info capabilities path t = elim (get t.mounts (normalize_mount_path path)) [
  | none ↦ none
  | some e ↦ some (e.mount_point, capabilities e.provider)
]

unfoldable pub count : MountTable → ℕ
count t = length t.mounts
