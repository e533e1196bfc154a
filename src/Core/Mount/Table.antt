-- ===== src/Core/Mount/Table.antt =====
-- What `mount` and `unmount` do to the table, and that `resolve` sees it.
use fs.Base.{
  ◌≤◌, [], ◌∷◌, length, ◌≡◌, ◌≢◌, refl, ◌∙◌, true, none, some, ◌==◌, text_eq, if◌then◌else◌, inl,
  inr, Text, root, starts_with, arith, eq_self,
}
use fs.Base.Map.{get, get-remove}
use fs.Base.Order.{IsSorted, get-insert_sorted, insert_sorted-IsSorted, remove-IsSorted}
use fs.Sdk.Error.{ok, err, already_exists}
use fs.Core.Mount.{
  ProviderId, MountEntry, MountTable, normalize_mount_path, mount, unmount, resolve,
}
use fs.Core.Mount.Best.{covers, relative, covers-starts}
use fs.Core.Mount.Resolve.{resolve-cases, resolve_fails_iff, resolve-IsLongest, normal-starts}

abbrev entry_for : Text → Text → ProviderId → MountEntry
entry_for path provider_name provider = record {
  mount_point = record { path = path; provider_name = provider_name };
  provider = provider;
}

unmount_lem :
    (path : Text) (u : MountTable) {e : MountEntry}
    → get u.mounts (normalize_mount_path path) ≡ some e
    → ((unmount path u).1 ≡ ok e.provider)
      × ((j : Text)
          → get (unmount path u).0.mounts j
            ≡ (if normalize_mount_path path == j then none else get u.mounts j))
unfolding unmount
unmount_lem path u h =
    (ground arith, λ j. ground (arith, get-remove u.mounts (normalize_mount_path path) j))

eq_of_prefix : (s p : Text) → starts_with s p ≡ true → length s ≤ length p → p ≡ s
unfolding starts_with
eq_of_prefix [] [] h l = refl
eq_of_prefix (c ∷ s) [] h l = absurd (omega arith)
eq_of_prefix [] (d ∷ p) h l = cc
eq_of_prefix (c ∷ s) (d ∷ p) h l = ground (arith, eq_of_prefix s p)

covers_self : (p : Text) → covers p p ≡ true
unfolding covers
covers_self p = ground arith

relative_self : (p : Text) → relative p p ≡ root
unfolding relative
relative_self p = ground arith

-- The order of the keys survives `mount` and `unmount`, whatever they return.
pub mount-IsSorted :
    (path provider_name : Text) (provider : ProviderId) (t : MountTable)
    → IsSorted t.mounts
    → IsSorted (mount path provider_name provider t).0.mounts × IsSorted (unmount path t).0.mounts
unfolding mount unmount
mount-IsSorted path provider_name provider t s = (
  ground (
    arith,
    insert_sorted-IsSorted t.mounts (normalize_mount_path path)
        (entry_for (normalize_mount_path path) provider_name provider) s,
  ),
  ground (arith, remove-IsSorted t.mounts (normalize_mount_path path) s),
)

module _ (path provider_name : Text) (provider : ProviderId) (t : MountTable) where
  -- On a free path `mount` adds the entry and leaves every other path as it was; on a path in use
  -- it reports the path and changes nothing.
  pub get-mount :
      (j : Text)
      → (get t.mounts (normalize_mount_path path) ≡ none
          → (get (mount path provider_name provider t).0.mounts j ≡ (
              if normalize_mount_path path == j
              then some (entry_for (normalize_mount_path path) provider_name provider)
              else get t.mounts j))
            × ((mount path provider_name provider t).1 ≡ ok tt))
        × (get t.mounts (normalize_mount_path path) ≢ none
            → mount path provider_name provider t
              ≡ (t, err (already_exists (normalize_mount_path path))))
  unfolding mount
  get-mount j = (
    λ h. (
      ground (
        arith,
        get-insert_sorted t.mounts (normalize_mount_path path)
            (entry_for (normalize_mount_path path) provider_name provider) j,
      ),
      ground arith,
    ),
    λ h. ground arith,
  )

  mount_free :
      (mount path provider_name provider t).1 ≡ ok tt
      → get t.mounts (normalize_mount_path path) ≡ none
  unfolding mount
  mount_free h = ground arith

  mount_self :
      (mount path provider_name provider t).1 ≡ ok tt
      → get (mount path provider_name provider t).0.mounts (normalize_mount_path path)
        ≡ some (entry_for (normalize_mount_path path) provider_name provider)
  mount_self h =
      let q = normalize_mount_path path in
      ((get-mount q).0 (mount_free h)).0 ∙ ground (arith, eq_self q)

  -- `unmount` after a successful `mount` returns its provider and restores every lookup.
  pub unmount-mount :
      (mount path provider_name provider t).1 ≡ ok tt
      → ((unmount path (mount path provider_name provider t).0).1 ≡ ok provider)
        × ((j : Text)
            → get (unmount path (mount path provider_name provider t).0).0.mounts j
              ≡ get t.mounts j)
  unmount-mount h =
      let q = normalize_mount_path path in
      let u = unmount_lem path (mount path provider_name provider t).0 (mount_self h) in
      (u.0, λ j. ground (arith, u.1 j, ((get-mount j).0 (mount_free h)).0, mount_free h))

  -- After a successful `mount` the path itself resolves to the new provider, at its root, unless
  -- it is a run of two or more slashes.
  pub resolve-mount :
      IsSorted t.mounts
      → normalize_mount_path path ≢ []
      → (mount path provider_name provider t).1 ≡ ok tt
      → resolve path (mount path provider_name provider t).0 ≡ ok (provider, root)
  resolve-mount s n h = elim (resolve-cases path t') [
    | inl e ↦
        absurd (cc ((resolve_fails_iff path t' s' n).0 e q added (mount_self h), covers_self q))
    | inr ((p, rel), e) ↦
        let b = resolve-IsLongest path t' s' n e in
        let k =
          eq_of_prefix q b.key (covers-starts q (normal-starts path n) b.key b.covering)
            (b.longest q added (mount_self h) (covers_self q)) in
        e ∙ cc (b.provider, b.rest, k, b.mounted, mount_self h, relative_self q)
  ]
    where
      t' : MountTable
      t' = (mount path provider_name provider t).0

      q : Text
      q = normalize_mount_path path

      added : MountEntry
      added = entry_for q provider_name provider

      s' : IsSorted t'.mounts
      s' = (mount-IsSorted path provider_name provider t s).0
