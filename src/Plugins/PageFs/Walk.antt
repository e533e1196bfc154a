-- ===== src/Plugins/PageFs/Walk.antt =====
-- Which records of the store the way through the directories depends on.
use fs.Base.{
  ◌≡◌, refl, ap, fun_ext, inl, inr, [], ◌∷◌, if◌then◌else◌, ◌==◌, List, arith, sym, ◌∙◌, some, ℕ,
  Bool-cases, Option-cases, Text, text_eq, root, is_empty,
}
use fs.Sdk.Error.{ok, err, not_found, not_directory, FsResult, FsResult-cases, ◌>>=◌}
use fs.Plugins.PageFs.Kv.{KvBackend}
use fs.Plugins.PageFs.Node.{Inode, root_inode, is_directory, Serde}
use fs.Plugins.PageFs.Store.{load_inode, lookup}
use fs.Plugins.PageFs.Names.{
  normalize_path, parts_of, or_error, split_last, resolve_parts, resolve_path, resolve_parent,
}

module _ (K : KvBackend) (S : Serde) where
  open K use {Kv}

  -- Two stores with the same inodes and the same directory entries.
  pub record SameTree (kv kv' : Kv) : Type 0 where
    pub inodes : (id : ℕ) → load_inode K S id kv ≡ load_inode K S id kv'
    pub entries : (id : ℕ) (name : Text) → lookup K S id name kv ≡ lookup K S id name kv'

  module _ (kv kv' : Kv) (same : SameTree kv kv') where
    resolve_parts_same :
        (path : Text) (parts : List Text) (id : ℕ)
        → resolve_parts K S path kv parts id ≡ resolve_parts K S path kv' parts id
    unfolding resolve_parts
    resolve_parts_same path [] id = refl
    resolve_parts_same path (part ∷ []) id = ap (or_error (not_found path)) (same.entries id part)
    resolve_parts_same path (part ∷ next ∷ parts) id =
        elim (Option-cases (lookup K S id part kv')) [
          | inl e ↦ rw (resolve_parts, same.entries id part, e) refl
          | inr (child, e) ↦ elim (Option-cases (load_inode K S child kv')) [
            | inl f ↦ rw (resolve_parts, same.entries id part, e, same.inodes child, f) refl
            | inr (inode, f) ↦
                rw (resolve_parts, same.entries id part, e, same.inodes child, f)
                  (ap (λ r. if is_directory inode then r else err (not_directory part))
                    (resolve_parts_same path (next ∷ parts) child))
          ]
        ]

    pub resolve_path_same : (path : Text) → resolve_path K S path kv ≡ resolve_path K S path kv'
    unfolding resolve_path
    resolve_path_same path = elim (Bool-cases (normalize_path path == root)) [
      | inl e ↦ rw (resolve_path, e, same.inodes root_inode) refl
      | inr e ↦
          rw
            (
              resolve_path,
              e,
              resolve_parts_same (normalize_path path) (parts_of (normalize_path path)) root_inode,
            )
            (ap
              (λ (f : ℕ → FsResult (ℕ × Inode)).
                resolve_parts K S (normalize_path path) kv' (parts_of (normalize_path path))
                  root_inode
                >>= f)
              (fun_ext (λ id.
                ap (λ o. or_error (not_found (normalize_path path)) o >>= λ inode. ok (id, inode))
                  (same.inodes id))))
    ]

    pub resolve_parent_same :
        (path : Text) → resolve_parent K S path kv ≡ resolve_parent K S path kv'
    unfolding resolve_parent
    resolve_parent_same path =
        let parent = (split_last (normalize_path path)).0 in
        rw (resolve_parent, resolve_path_same (if is_empty parent then root else parent)) refl

  -- The inode that a path leads to is stored under its number.
  pub resolve_path-stored :
      (path : Text) (kv : Kv) (id : ℕ) (inode : Inode)
      → resolve_path K S path kv ≡ ok (id, inode)
      → load_inode K S id kv ≡ some inode
  unfolding resolve_path
  resolve_path-stored path kv id inode h = elim (Bool-cases (normalize_path path == root)) [
    | inl e ↦ elim (Option-cases (load_inode K S root_inode kv)) [
      | inl f ↦ absurd (ground (arith, e, f, h))
      | inr (x, f) ↦ stored_at root_inode x f (ground (arith, e, f, h))
    ]
    | inr e ↦
        elim (FsResult-cases (
          resolve_parts K S (normalize_path path) kv (parts_of (normalize_path path)) root_inode)) [
            | inl (found, w) ↦ elim (Option-cases (load_inode K S found kv)) [
              | inl f ↦ absurd (ground (arith, e, w, f, h))
              | inr (x, f) ↦ stored_at found x f (ground (arith, e, w, f, h))
            ]
            | inr (inl (x, w)) ↦ absurd (ground (arith, e, w, h))
            | inr (inr w) ↦ absurd (ground (arith, e, w, h))
          ]
  ]
    where
      stored_at :
          (found : ℕ) (x : Inode)
          → load_inode K S found kv ≡ some x
          → ◌≡◌ {A = FsResult (ℕ × Inode)} (ok (found, x)) (ok (id, inode))
          → load_inode K S id kv ≡ some inode
      stored_at found x f e =
          let same_id : found ≡ id = cc in
          let same_inode : x ≡ inode = cc in rw (sym same_id, f, same_inode) refl

  -- Two stores with the same entries, where an inode of the first is one of the same kind in the second.
  pub record SameKinds (kv kv' : Kv) : Type 0 where
    pub names : (id : ℕ) (name : Text) → lookup K S id name kv ≡ lookup K S id name kv'
    pub kinds :
        (id : ℕ) (inode : Inode)
        → load_inode K S id kv ≡ some inode
        → (inode' : Inode) × (load_inode K S id kv' ≡ some inode')
          × (is_directory inode ≡ is_directory inode')

  module _ (kv kv' : Kv) (same : SameKinds kv kv') where
    resolve_parts-kept :
        (path : Text) (parts : List Text) (id found : ℕ)
        → resolve_parts K S path kv parts id ≡ ok found
        → resolve_parts K S path kv' parts id ≡ ok found
    unfolding resolve_parts
    resolve_parts-kept path [] id found h = h
    resolve_parts-kept path (part ∷ []) id found h =
        ap (or_error (not_found path)) (sym (same.names id part)) ∙ h
    resolve_parts-kept path (part ∷ next ∷ parts) id found h =
        elim (Option-cases (lookup K S id part kv)) [
          | inl e ↦ absurd (ground (arith, e, h))
          | inr (child, e) ↦ elim (Option-cases (load_inode K S child kv)) [
            | inl f ↦ absurd (ground (arith, e, f, h))
            | inr (inode, f) ↦
                let (inode', f', k) = same.kinds child inode f in
                elim (Bool-cases (is_directory inode)) [
                  | inl d ↦
                      rw (resolve_parts, sym (same.names id part) ∙ e, f', sym k ∙ d)
                        (resolve_parts-kept path (next ∷ parts) child found
                          (rw (resolve_parts, e, f, d) at h))
                  | inr d ↦ absurd (ground (arith, e, f, d, h))
                ]
          ]
        ]

    -- A path leads to the same number, with the inode that is there now.
    pub resolve_path-kept :
        (path : Text) (id : ℕ) (inode inode' : Inode)
        → resolve_path K S path kv ≡ ok (id, inode)
        → load_inode K S id kv' ≡ some inode'
        → resolve_path K S path kv' ≡ ok (id, inode')
    unfolding resolve_path
    resolve_path-kept path id inode inode' h l = elim (Bool-cases (normalize_path path == root)) [
      | inl e ↦ elim (Option-cases (load_inode K S root_inode kv)) [
        | inl f ↦ absurd (ground (arith, e, f, h))
        | inr (x, f) ↦
            let same_id : root_inode ≡ id = ground (arith, e, f, h) in
            rw (resolve_path, e, same_id, l) refl
      ]
      | inr e ↦ elim (FsResult-cases (walk kv)) [
        | inl (found, w) ↦ elim (Option-cases (load_inode K S found kv)) [
          | inl f ↦ absurd (ground (arith, e, w, f, h))
          | inr (x, f) ↦
              let same_id : found ≡ id = ground (arith, e, w, f, h) in
              let w' =
                resolve_parts-kept (normalize_path path) (parts_of (normalize_path path)) root_inode
                  found w in
              rw (resolve_path, e, w', same_id, l) refl
        ]
        | inr (inl (x, w)) ↦ absurd (ground (arith, e, w, h))
        | inr (inr w) ↦ absurd (ground (arith, e, w, h))
      ]
    ]
      where
        walk : Kv → FsResult ℕ
        walk s =
            resolve_parts K S (normalize_path path) s (parts_of (normalize_path path)) root_inode
