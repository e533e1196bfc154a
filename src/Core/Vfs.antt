-- ===== src/Core/Vfs.antt =====
-- core/src/vfs.rs: the router. Each call resolves its path, checks what the provider can do and
-- forwards to it; open files go through the handle registry. The providers are an interface.
pub mod Gates
pub mod Files
pub mod Memory
use fs.Base.{
  ℕ, Bool, not, ◌&&◌, ◌||◌, Option, none, some, List, [], ◌∷◌, ◌++◌, map, eqb, if◌then◌else◌, ◌==◌,
  nat_eq, Text, chars, text_eq, slash, root,
}
use fs.Base.Map.{is_some}
use fs.Sdk.Error.{
  ok, FsError, FsResult, err, panic, invalid_argument, invalid_handle, not_implemented, ◌>>=◌,
}
use fs.Sdk.Types.{FileInfo, StatChanges, OpenFlags, FsStats}
use fs.Sdk.Capabilities.{Capabilities, Capability}
use fs.Sdk.Provider.{ProviderId, Handle, Bytes, Providers}
use fs.Core.Mount.{MountTable}
use fs.Core.Mount
use fs.Core.Handle.{HandleState, HandleRegistry}
use fs.Core.Handle
use fs.Core.Paths.{after_last, before_last}

-- The first refusal of the checks of `wstat`, in the code's order.
unfoldable pub wstat_gate : Capabilities → StatChanges → Option FsError
wstat_gate caps c =
    if is_some c.mode && not (caps Capability.chmod)
    then some (not_implemented (chars "chmod"))
    else if (is_some c.uid || is_some c.gid) && not (caps Capability.chown)
    then some (not_implemented (chars "chown"))
    else if is_some c.size && not (caps Capability.truncate)
    then some (not_implemented (chars "truncate"))
    else if (is_some c.atime || is_some c.mtime) && not (caps Capability.utime)
    then some (not_implemented (chars "utime"))
    else if is_some c.name && not (caps Capability.rename)
    then some (not_implemented (chars "rename"))
    else if is_some c.symlink_target && not (caps Capability.symlink)
    then some (not_implemented (chars "symlink"))
    else none

-- The checks of `open`.
unfoldable pub open_gate : Capabilities → OpenFlags → Option FsError
open_gate caps flags =
    if flags.read && not (caps Capability.read)
    then some (not_implemented (chars "read"))
    else if flags.write && not (caps Capability.write)
    then some (not_implemented (chars "write"))
    else if flags.create && not (caps Capability.create)
    then some (not_implemented (chars "create"))
    else none

-- A rename target in the namespace of the router becomes one of the provider.
unfoldable pub translate_name : MountTable → ProviderId → StatChanges → FsResult StatChanges
translate_name t provider c = elim c.name [
  | none ↦ ok c
  | some new_name ↦ Mount.resolve new_name t >>= λ (r : ProviderId × Text).
      if not (eqb provider r.0)
      then err (invalid_argument (chars "cannot rename across mount points"))
      else ok (record c { name = some r.1 })
]

-- `rsplit('/').next()`: what follows the last slash, or all of the text.
unfoldable pub base_name : Text → Text
base_name path = elim (before_last path slash) [ none ↦ path | some t ↦ after_last path slash ]

unfoldable pub absolute : Text → FileInfo → FileInfo
unfolding base_name
absolute path info = record info {
  path = (if path == root then [] else path) ++ slash ∷ base_name info.path;
}

module _ (P : Providers) where
  open P use {World}

  -- The router's tables, with the world of the providers.
  pub record VfsRouter : Type 0 where
    pub mount_table : MountTable
    pub handle_registry : HandleRegistry
    pub world : World

  -- The result of a call that changes the world alone.
  abbrev pub in_world {ℓ} : {A : Type ℓ} → VfsRouter → World × FsResult A → VfsRouter × FsResult A
  in_world v (w, r) = (record v { world = w }, r)

  unfoldable pub stat : Text → VfsRouter → VfsRouter × FsResult FileInfo
  stat path v = elim (Mount.resolve path v.mount_table) [
    | err e ↦ (v, err e)
    | panic ↦ (v, panic)
    | ok (p, rel) ↦
        let (w, r) = P.stat p rel v.world in
        (record v { world = w }, r >>= λ info. ok (record info { path = path }))
  ]

  unfoldable pub wstat : Text → StatChanges → VfsRouter → VfsRouter × FsResult (Unit {0})
  wstat path changes v = elim (Mount.resolve path v.mount_table) [
    | err e ↦ (v, err e)
    | panic ↦ (v, panic)
    | ok (p, rel) ↦ elim (wstat_gate (P.capabilities p) changes) [
      | some e ↦ (v, err e)
      | none ↦ elim (translate_name v.mount_table p changes) [
        | err e ↦ (v, err e)
        | panic ↦ (v, panic)
        | ok changes' ↦ in_world v (P.wstat p rel changes' v.world)
      ]
    ]
  ]

  unfoldable pub statfs : Text → VfsRouter → VfsRouter × FsResult FsStats
  statfs path v = elim (Mount.resolve path v.mount_table) [
    | err e ↦ (v, err e)
    | panic ↦ (v, panic)
    | ok (p, rel) ↦ in_world v (P.statfs p rel v.world)
  ]

  -- The provider's handle is registered under the path of the router.
  unfoldable pub open_resolved :
      ℕ
      → Text
      → OpenFlags
      → VfsRouter
      → ProviderId
      → World × FsResult (Handle × FileInfo)
      → VfsRouter × FsResult (Handle × FileInfo)
  open_resolved now path flags v p (w, err e) = (record v { world = w }, err e)
  open_resolved now path flags v p (w, panic) = (record v { world = w }, panic)
  open_resolved now path flags v p (w, ok (provider_handle, info)) =
      let metadata = record info { path = path } in
      let (r, id) = Handle.register now p path flags metadata provider_handle v.handle_registry in
      (record v { world = w; handle_registry = r }, ok (id, metadata))

  unfoldable pub open_file :
      ℕ → Text → OpenFlags → VfsRouter → VfsRouter × FsResult (Handle × FileInfo)
  open_file now path flags v = elim (Mount.resolve path v.mount_table) [
    | err e ↦ (v, err e)
    | panic ↦ (v, panic)
    | ok (p, rel) ↦ elim (open_gate (P.capabilities p) flags) [
      | some e ↦ (v, err e)
      | none ↦ open_resolved now path flags v p (P.open_file p rel flags v.world)
    ]
  ]

  -- `get`, then `provider` and `provider_handle` of the reference: two calls of `with_handle`.
  unfoldable pub provider_of :
      ℕ → Handle → HandleRegistry → HandleRegistry × FsResult (ProviderId × Handle)
  provider_of now handle r = elim (Handle.get_ref handle r) [
    | none ↦ (r, err (invalid_handle handle))
    | some id ↦
        let (r1, p) = Handle.with_handle now id (λ (s : HandleState). s.provider) r in
        elim p [
          | err e ↦ (r1, err e)
          | panic ↦ (r1, panic)
          | ok provider ↦
              let (r2, h) = Handle.with_handle now id (λ (s : HandleState). s.provider_handle) r1 in
              (r2, h >>= λ provider_handle. ok (provider, provider_handle))
        ]
  ]

  unfoldable pub read : ℕ → Handle → ℕ → ℕ → VfsRouter → VfsRouter × FsResult Bytes
  read now handle offset size v =
      let (r, found) = provider_of now handle v.handle_registry in
      let v' = record v { handle_registry = r } in
      elim found [
        | err e ↦ (v', err e)
        | panic ↦ (v', panic)
        | ok (p, h) ↦ in_world v' (P.read p h offset size v.world)
      ]

  unfoldable pub write : ℕ → Handle → ℕ → Bytes → VfsRouter → VfsRouter × FsResult ℕ
  write now handle offset bytes v =
      let (r, found) = provider_of now handle v.handle_registry in
      let v' = record v { handle_registry = r } in
      elim found [
        | err e ↦ (v', err e)
        | panic ↦ (v', panic)
        | ok (p, h) ↦ in_world v' (P.write p h offset bytes v.world)
      ]

  unfoldable pub close : Handle → Bool → VfsRouter → VfsRouter × FsResult (Unit {0})
  close handle sync v =
      let (r, w, result) = Handle.close P handle sync v.handle_registry v.world in
      (record v { handle_registry = r; world = w }, result)

  unfoldable pub readdir : Text → VfsRouter → VfsRouter × FsResult (List FileInfo)
  readdir path v = elim (Mount.resolve path v.mount_table) [
    | err e ↦ (v, err e)
    | panic ↦ (v, panic)
    | ok (p, rel) ↦
        let (w, r) = P.readdir p rel v.world in
        (record v { world = w }, r >>= λ entries. ok (map (absolute path) entries))
  ]

  unfoldable pub remove : Text → VfsRouter → VfsRouter × FsResult (Unit {0})
  remove path v = elim (Mount.resolve path v.mount_table) [
    | err e ↦ (v, err e)
    | panic ↦ (v, panic)
    | ok (p, rel) ↦
        if not (P.capabilities p Capability.delete)
        then (v, err (not_implemented (chars "delete")))
        else in_world v (P.remove p rel v.world)
  ]
