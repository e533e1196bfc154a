-- ===== src/Core/Handle/Registry.antt =====
-- What the registry promises of `register`, `get`, `with_handle` and `close`.
use mathlib.Core.Option
use fs.Base.{
  ◌-◌, ℕ, ◌+◌, ◌<◌, ◌≤◌, ◌%◌, ◌^◌, ◌≡◌, ◌≢◌, ◌↔◌, refl, ◌∙◌, Bool, Option, none, some, [], nat_eq,
  eqb, if◌then◌else◌, Text, get_or, replicate, get_or-replicate, arith, Option-cases, inl, inr,
  text_eq,
}
use fs.Base.Map.{get, insert, remove, length-insert_new, length-remove_present}
use fs.Sdk.Error.{ok, err, invalid_handle, FsResult}
use fs.Sdk.Types.{FileInfo, OpenFlags}
use fs.Sdk.Provider.{ProviderId, Handle, Providers}
use fs.Core.Handle.{
  HandleId, HandleState, HandleRegistry, Shard, num_shards, new, register, get_ref, with_handle,
  count, close,
}
use fs.Core.Handle.Shards.{
  find, AreShards, find-insert, find-remove, insert-AreShards, remove-AreShards, count-set,
}

-- The registry seen as one map from ids to open handles.
abbrev pub lookup : HandleId → HandleRegistry → Option HandleState
lookup id r = find r.shards id

pub record IsValid (r : HandleRegistry) : Type 0 where
  pub shards : AreShards r.shards
  pub fresh : (id : HandleId) → r.next_id ≤ id → lookup id r ≡ none

-- A call on a handle: the answer at an open one, the error at any other id.
abbrev pub on_handle :
    {R : Type 0} → HandleId → (HandleState → FsResult R) → Option HandleState → FsResult R
on_handle id f none = err (invalid_handle id)
on_handle id f (some s) = f s

-- The state after an access.
abbrev pub touch : ℕ → HandleState → HandleState
touch now s = record s { last_access = now }

-- The state that `register` stores.
abbrev pub registered : ℕ → ProviderId → Text → OpenFlags → FileInfo → Handle → HandleState
registered now provider path flags metadata provider_handle = record {
  provider = provider;
  path = path;
  flags = flags;
  created_at = now;
  last_access = now;
  metadata = metadata;
  provider_handle = provider_handle;
}

-- A new registry is valid.
pub new-IsValid : (ttl : ℕ) → IsValid (new ttl)
unfolding new get
new-IsValid ttl = record {
  shards = record {
    size = refl;
    distinct = λ i. rw (empty i) tt;
    placed = λ i id h. absurd (h (rw (empty i) refl));
  };
  fresh = λ id h. rw (empty (id % num_shards)) refl;
}
  where
    none_yet : Shard
    none_yet = []

    empty : (i : ℕ) → get_or (replicate num_shards none_yet) i none_yet ≡ none_yet
    empty i = get_or-replicate num_shards none_yet i

module _ (now : ℕ) (provider : ProviderId) (path : Text) (flags : OpenFlags) (metadata : FileInfo)
    (provider_handle : Handle) (r : HandleRegistry) (v : IsValid r) where
  abbrev added : HandleState
  added = registered now provider path flags metadata provider_handle

  abbrev after : HandleRegistry × HandleId
  after = register now provider path flags metadata provider_handle r

  count-register : count after.0 ≡ count r + 1
  unfolding register count
  count-register = omega (
    arith,
    count-set r.shards (r.next_id % num_shards)
        (insert (get_or r.shards (r.next_id % num_shards) []) r.next_id added)
        (omega (arith, v.shards.size)),
    length-insert_new (get_or r.shards (r.next_id % num_shards) []) r.next_id added
        (v.fresh r.next_id (omega arith)),
  )

  -- In a valid registry the id that `register` returns was free; afterwards it finds the new
  -- handle, every other id finds what it found, and there is one handle more.
  pub lookup-register :
      (id : HandleId)
      → (lookup after.1 r ≡ none)
        × (lookup id after.0 ≡ (if eqb after.1 id then some added else lookup id r))
        × (count after.0 ≡ count r + 1)
  unfolding register
  lookup-register id = (
    v.fresh r.next_id (omega arith),
    find-insert r.shards v.shards r.next_id added id,
    count-register,
  )

  -- A registration keeps the registry valid as long as the counter of 64 bits does not wrap.
  pub register-IsValid : r.next_id + 1 < 2 ^ 64 → IsValid after.0
  unfolding register
  register-IsValid h = record {
    shards = insert-AreShards r.shards v.shards r.next_id added;
    fresh = λ id q. find-insert r.shards v.shards r.next_id added id ∙ ground (arith, v.fresh id);
  }

module _ (now : ℕ) (id : HandleId) (r : HandleRegistry) (v : IsValid r) where
  -- `get` answers exactly for the open handles.
  pub get_ref_iff : (get_ref id r ≡ some id) ↔ (lookup id r ≢ none)
  unfolding get_ref
  get_ref_iff = (λ h. ground arith, λ h. ground arith)

  -- On an open handle `with_handle` returns the function's answer and stamps the access time of
  -- this handle alone; on any other id it reports the id and changes no lookup.
  pub with_handle_lem :
      {R : Type 0} (f : HandleState → R) (j : HandleId)
      → ((with_handle now id f r).1 ≡ on_handle id (λ s. ok (f (touch now s))) (lookup id r))
        × (lookup j (with_handle now id f r).0
            ≡ (if eqb id j then Option.map (touch now) (lookup j r) else lookup j r))
  unfolding with_handle
  with_handle_lem f j = elim (Option-cases (lookup id r)) [
    | inl e ↦ (ground arith, ground arith)
    | inr (s, e) ↦ (ground arith, ground (arith, find-insert r.shards v.shards id (touch now s) j))
  ]

  pub with_handle-IsValid : {R : Type 0} (f : HandleState → R) → IsValid (with_handle now id f r).0
  unfolding with_handle
  with_handle-IsValid f = elim (Option-cases (lookup id r)) [
    | inl e ↦ rw (e, with_handle) v
    | inr (s, e) ↦
        rw (e, with_handle)
          (record {
            shards = insert-AreShards r.shards v.shards id (touch now s);
            fresh = λ j q.
                find-insert r.shards v.shards id (touch now s) j
                ∙ ground (arith, v.fresh j q, v.fresh id);
          })
  ]

module _ (P : Providers) (id : HandleId) (sync : Bool) (r : HandleRegistry) (v : IsValid r)
    (w : P.World) where
  close_count :
      (s : HandleState) → lookup id r ≡ some s → count (close P id sync r w).0 + 1 ≡ count r
  unfolding close count
  close_count s h =
      rw (h, close)
        (omega (
          arith,
          count-set r.shards (id % num_shards) (remove (get_or r.shards (id % num_shards) []) id)
              (omega (arith, v.shards.size)),
          length-remove_present (get_or r.shards (id % num_shards) []) id s (v.shards.distinct _) h,
        ))

  -- `close` of an open handle removes it, and only it, and returns what its provider's `close`
  -- answers, an error too; of any other id it reports the id, and the provider is not called.
  close_lem :
      (j : HandleId)
      → (lookup j (close P id sync r w).0 ≡ (if eqb id j then none else lookup j r))
        × ((close P id sync r w).1 ≡ elim (lookup id r) [
          | none ↦ w
          | some s ↦ (P.close s.provider s.provider_handle sync w).0
        ])
        × ((close P id sync r w).2
            ≡ on_handle id (λ s. (P.close s.provider s.provider_handle sync w).1) (lookup id r))
        × (count (close P id sync r w).0 ≡ count r - elim (lookup id r) [ none ↦ 0 | some _ ↦ 1 ])
  unfolding close
  close_lem j = elim (Option-cases (lookup id r)) [
    | inl e ↦ (ground arith, ground arith, ground arith, ground arith)
    | inr (s, e) ↦ (
      ground (arith, find-remove r.shards v.shards id j),
      ground arith,
      ground arith,
      ground (arith, close_count s e),
    )
  ]

  pub close-IsValid : IsValid (close P id sync r w).0
  unfolding close
  close-IsValid = elim (Option-cases (lookup id r)) [
    | inl e ↦ rw (e, close) v
    | inr (s, e) ↦
        rw (e, close)
          (record {
            shards = remove-AreShards r.shards v.shards id;
            fresh = λ j q. find-remove r.shards v.shards id j ∙ ground (arith, v.fresh j q);
          })
  ]
