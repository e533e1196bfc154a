-- ===== src/Core/Vfs/Files.antt =====
-- Open files of the router: the registry remembers the provider, and calls reach it.
use mathlib.Core.Path.{subst}
use fs.Base.{ℕ, ◌≡◌, sym, ap, ◌∙◌, inl, inr, none, some, arith, nat_eq, Option-cases, Text, text_eq}
use fs.Sdk.Error.{ok, FsResult-cases, FsResult}
use fs.Sdk.Types.{FileInfo, OpenFlags}
use fs.Sdk.Provider.{ProviderId, Handle, Bytes, Providers}
use fs.Core.Mount
use fs.Core.Handle
use fs.Core.Handle.{HandleState, HandleRegistry}
use fs.Core.Handle.Registry.{
  lookup, IsValid, registered, on_handle, lookup-register, with_handle_lem, with_handle-IsValid,
  touch,
}
use fs.Core.Vfs.{open_gate, VfsRouter, open_resolved, open_file, provider_of, read, write}

-- What a successful `open` of the router stands on: the provider that the path resolves to opened
-- the rest of the path, and the new id finds a handle of that provider under the router's path.
pub record Opened (P : Providers) (now : ℕ) (path : Text) (flags : OpenFlags) (v : VfsRouter P)
    (id : Handle) (info : FileInfo) : Type 0 where
  pub provider : ProviderId
  pub rest : Text
  pub provider_handle : Handle
  pub metadata : FileInfo
  pub resolved : Mount.resolve path v.mount_table ≡ ok (provider, rest)
  pub opened : (P.open_file provider rest flags v.world).1 ≡ ok (provider_handle, metadata)
  pub answered : info ≡ record metadata { path = path }
  pub found :
      lookup id (open_file P now path flags v).0.handle_registry
      ≡ some (registered now provider path flags info provider_handle)

module _ (P : Providers) (now : ℕ) (v : VfsRouter P) (valid : IsValid v.handle_registry) where
  abbrev register_at : Text → OpenFlags → ProviderId → Handle → FileInfo → HandleRegistry × Handle
  register_at path flags p ph m =
      Handle.register now p path flags (record m { path = path }) ph v.handle_registry

  open_accepted :
      (path : Text) (flags : OpenFlags) (p : ProviderId) (rel : Text) (ph : Handle) (m : FileInfo)
      → Mount.resolve path v.mount_table ≡ ok (p, rel)
      → open_gate (P.capabilities p) flags ≡ none
      → (P.open_file p rel flags v.world).1 ≡ ok (ph, m)
      → open_file P now path flags v ≡ (
        record v {
          world = (P.open_file p rel flags v.world).0;
          handle_registry = (register_at path flags p ph m).0;
        },
        ok ((register_at path flags p ph m).1, record m { path = path }),
      )
  unfolding open_file open_resolved
  open_accepted path flags p rel ph m r g o = ground (arith, r, g, o)

  Opened-accepted :
      (path : Text) (flags : OpenFlags) (id : Handle) (info : FileInfo) (p : ProviderId)
      (rel : Text) (ph : Handle) (m : FileInfo)
      → (open_file P now path flags v).1 ≡ ok (id, info)
      → Mount.resolve path v.mount_table ≡ ok (p, rel)
      → open_gate (P.capabilities p) flags ≡ none
      → (P.open_file p rel flags v.world).1 ≡ ok (ph, m)
      → Opened P now path flags v id info
  Opened-accepted path flags id info p rel ph m h r g o =
      let e = open_accepted path flags p rel ph m r g o in
      let same : ◌≡◌ {A = FsResult (Handle × FileInfo)}
          (ok ((register_at path flags p ph m).1, record m { path = path })) (ok (id, info)) =
        sym (ap (λ x. x.1) e) ∙ h in
      record {
        provider = p;
        rest = rel;
        provider_handle = ph;
        metadata = m;
        resolved = r;
        opened = o;
        answered = cc;
        found =
            ap (λ x. lookup id x.0.handle_registry) e
            ∙ (lookup-register now p path flags (record m { path = path }) ph v.handle_registry
                valid id).1
            ∙ ground arith;
      }

  -- A successful `open` of the router, over a valid registry.
  open-Opened :
      (path : Text) (flags : OpenFlags) (id : Handle) (info : FileInfo)
      → (open_file P now path flags v).1 ≡ ok (id, info)
      → Opened P now path flags v id info
  unfolding open_file open_resolved
  open-Opened path flags id info h = elim (FsResult-cases (Mount.resolve path v.mount_table)) [
    | inl ((p, rel), r) ↦ elim (Option-cases (open_gate (P.capabilities p) flags)) [
      | inl g ↦ elim (FsResult-cases (P.open_file p rel flags v.world).1) [
        | inl ((ph, m), o) ↦ Opened-accepted path flags id info p rel ph m h r g o
        | inr (inl (e, o)) ↦ absurd (ground (arith, h, r, g, o))
        | inr (inr o) ↦ absurd (ground (arith, h, r, g, o))
      ]
      | inr (e, g) ↦ absurd (ground (arith, h, r, g))
    ]
    | inr (inl (e, r)) ↦ absurd (ground (arith, h, r))
    | inr (inr r) ↦ absurd (ground (arith, h, r))
  ]

  provider_of_lem :
      (handle : Handle)
      → (provider_of P now handle v.handle_registry).1
        ≡ on_handle handle
            (λ s. ok (s.provider, s.provider_handle))
            (lookup handle v.handle_registry)
  unfolding provider_of Handle.get_ref
  provider_of_lem handle =
      let r = v.handle_registry in
      let first = with_handle_lem now handle r valid (λ (s : HandleState). s.provider) handle in
      let r1 = (Handle.with_handle now handle (λ (s : HandleState). s.provider) r).0 in
      let valid1 = with_handle-IsValid now handle r valid (λ (s : HandleState). s.provider) in
      let second =
        with_handle_lem now handle r1 valid1 (λ (s : HandleState). s.provider_handle) handle in
      elim (Option-cases (lookup handle r)) [
        | inl e ↦ ground (arith, e)
        | inr (s, e) ↦ ground (arith, e, first.0, first.1, second.0)
      ]

  -- Over a valid registry, a read or a write through the router is that of the handle's provider,
  -- at the provider's own handle: the answer and what becomes of the providers. On an id that is
  -- not open it reports the id, and the providers are as they were. Neither changes the mount
  -- table.
  pub read_and_write_lem :
      (handle : Handle) (offset size : ℕ) (bytes : Bytes)
      → ((read P now handle offset size v).1
          ≡ on_handle handle
              (λ s. (P.read s.provider s.provider_handle offset size v.world).1)
              (lookup handle v.handle_registry))
        × ((read P now handle offset size v).0.world ≡ elim (lookup handle v.handle_registry) [
          | none ↦ v.world
          | some s ↦ (P.read s.provider s.provider_handle offset size v.world).0
        ])
        × ((write P now handle offset bytes v).1
            ≡ on_handle handle
                (λ s. (P.write s.provider s.provider_handle offset bytes v.world).1)
                (lookup handle v.handle_registry))
        × ((write P now handle offset bytes v).0.world ≡ elim (lookup handle v.handle_registry) [
          | none ↦ v.world
          | some s ↦ (P.write s.provider s.provider_handle offset bytes v.world).0
        ])
        × ((read P now handle offset size v).0.mount_table ≡ v.mount_table)
        × ((write P now handle offset bytes v).0.mount_table ≡ v.mount_table)
  unfolding read write
  read_and_write_lem handle offset size bytes =
      elim (Option-cases (lookup handle v.handle_registry)) [
        | inl e ↦ (
          ground (arith, e, provider_of_lem handle),
          ground (arith, e, provider_of_lem handle),
          ground (arith, e, provider_of_lem handle),
          ground (arith, e, provider_of_lem handle),
          ground (arith, e, provider_of_lem handle),
          ground (arith, e, provider_of_lem handle),
        )
        | inr (s, e) ↦ (
          ground (arith, e, provider_of_lem handle),
          ground (arith, e, provider_of_lem handle),
          ground (arith, e, provider_of_lem handle),
          ground (arith, e, provider_of_lem handle),
          ground (arith, e, provider_of_lem handle),
          ground (arith, e, provider_of_lem handle),
        )
      ]

  provider_of-IsValid : (handle : Handle) → IsValid (provider_of P now handle v.handle_registry).0
  unfolding provider_of Handle.get_ref
  provider_of-IsValid handle =
      let r = v.handle_registry in
      let first = with_handle_lem now handle r valid (λ (s : HandleState). s.provider) handle in
      let r1 = (Handle.with_handle now handle (λ (s : HandleState). s.provider) r).0 in
      let valid1 = with_handle-IsValid now handle r valid (λ (s : HandleState). s.provider) in
      let valid2 =
        with_handle-IsValid now handle r1 valid1 (λ (s : HandleState). s.provider_handle) in
      elim (Option-cases (lookup handle r)) [
        | inl e ↦ subst IsValid (ground (arith, e)) valid
        | inr (s, e) ↦ subst IsValid (ground (arith, e, first.0)) valid2
      ]

  provider_of-found :
      (handle : Handle) (s : HandleState)
      → lookup handle v.handle_registry ≡ some s
      → lookup handle (provider_of P now handle v.handle_registry).0 ≡ some (touch now s)
  unfolding provider_of Handle.get_ref
  provider_of-found handle s e =
      let r = v.handle_registry in
      let first = with_handle_lem now handle r valid (λ (s : HandleState). s.provider) handle in
      let r1 = (Handle.with_handle now handle (λ (s : HandleState). s.provider) r).0 in
      let valid1 = with_handle-IsValid now handle r valid (λ (s : HandleState). s.provider) in
      let second =
        with_handle_lem now handle r1 valid1 (λ (s : HandleState). s.provider_handle) handle in
      ground (arith, e, first.0, first.1, second.1)

  pub write-registry :
      (handle : Handle) (offset : ℕ) (bytes : Bytes)
      → (write P now handle offset bytes v).0.handle_registry
        ≡ (provider_of P now handle v.handle_registry).0
  unfolding write
  write-registry handle offset bytes = ground arith

  -- After a write the registry is valid, and the handle is still open at its provider.
  pub write-IsValid :
      (handle : Handle) (offset : ℕ) (bytes : Bytes)
      → IsValid (write P now handle offset bytes v).0.handle_registry
  write-IsValid handle offset bytes =
      subst IsValid (sym (write-registry handle offset bytes)) (provider_of-IsValid handle)

  pub write-found :
      (handle : Handle) (offset : ℕ) (bytes : Bytes) (s : HandleState)
      → lookup handle v.handle_registry ≡ some s
      → lookup handle (write P now handle offset bytes v).0.handle_registry ≡ some (touch now s)
  write-found handle offset bytes s e =
      ap (lookup handle) (write-registry handle offset bytes) ∙ provider_of-found handle s e
