-- ===== src/Core/Handle/Cleanup.antt =====
-- What `cleanup_stale` and `close_all` remove.
use mathlib.Core.Option
use fs.Base.{
  ℕ, zero, suc, ◌+◌, ◌-◌, ◌%◌, ◌≤◌, ◌≡◌, refl, ap, ◌∙◌, ◌≢◌, inl, inr, Bool, true, false, ◌&&◌,
  Option, none, some, List, [], ◌∷◌, map, arith, ltb, if◌then◌else◌, nat_eq, Option-cases, length,
  get_or, has, has-append, text_eq, ℕ-cases,
}
use fs.Base.Map.{is_some, get, remove, get-remove, Distinct, remove-Distinct}
use fs.Sdk.Provider.{Providers}
use fs.Core.Handle.{
  HandleId, HandleState, HandleRegistry, Shard, num_shards, with_handle, count_shards, count,
  is_stale, stale_ids, remove_all, close_each, cleanup_shards, cleanup_stale, close_all_shards,
  close_all,
}
use fs.Core.Handle.Registry.{lookup, IsValid, touch, with_handle_lem, with_handle-IsValid}

-- What a cleanup leaves of one lookup, and whether it lists the id.
abbrev pub kept : ℕ → ℕ → Option HandleState → Option HandleState
kept now ttl none = none
kept now ttl (some s) = if is_stale now ttl s then none else some s

abbrev pub dropped : ℕ → ℕ → Option HandleState → Bool
dropped now ttl none = false
dropped now ttl (some s) = is_stale now ttl s

abbrev ids_of : Shard → List HandleId
ids_of = map (λ (e : HandleId × HandleState). e.0)

has-stale_ids :
    (now ttl : ℕ) (m : Shard) (id : HandleId)
    → Distinct m
    → has (stale_ids now ttl m) id ≡ dropped now ttl (get m id)
unfolding stale_ids get
has-stale_ids now ttl [] id d = refl
has-stale_ids now ttl ((i, s) ∷ m) id (a, d) = ground (arith, has-stale_ids now ttl m id d)

get-remove_all :
    (ids : List HandleId) (m : Shard) (id : HandleId)
    → get (remove_all ids m).0 id ≡ (if has ids id then none else get m id)
unfolding remove_all
get-remove_all [] m id = refl
get-remove_all (i ∷ ids) m id = elim (Option-cases (get m i)) [
  | inl e ↦ ground (arith, get-remove_all ids m id)
  | inr (s, e) ↦ ground (arith, get-remove_all ids (remove m i) id, get-remove m i id)
]

remove_all-Distinct : (ids : List HandleId) (m : Shard) → Distinct m → Distinct (remove_all ids m).0
unfolding remove_all
remove_all-Distinct [] m d = d
remove_all-Distinct (i ∷ ids) m d = elim (Option-cases (get m i)) [
  | inl e ↦ rw (e, remove_all) (remove_all-Distinct ids m d)
  | inr (s, e) ↦ rw (e, remove_all) (remove_all-Distinct ids (remove m i) (remove-Distinct m i d))
]

-- The removed ids are those that were asked for and present.
has-removed :
    (ids : List HandleId) (m : Shard) (id : HandleId)
    → has (ids_of (remove_all ids m).1) id ≡ (has ids id && is_some (get m id))
unfolding remove_all
has-removed [] m id = refl
has-removed (i ∷ ids) m id = elim (Option-cases (get m i)) [
  | inl e ↦ ground (arith, has-removed ids m id)
  | inr (s, e) ↦ ground (arith, has-removed ids (remove m i) id, get-remove m i id)
]

has-removed_stale :
    (now ttl : ℕ) (m : Shard) (id : HandleId)
    → Distinct m
    → has (ids_of (remove_all (stale_ids now ttl m) m).1) id ≡ dropped now ttl (get m id)
has-removed_stale now ttl m id d =
    has-removed (stale_ids now ttl m) m id ∙ ground (arith, has-stale_ids now ttl m id d)

module _ (P : Providers) (now ttl : ℕ) where
  shard-cleanup :
      (ms : List Shard) (w : P.World) (i : ℕ)
      → get_or (cleanup_shards P now ttl ms w).0 i []
        ≡ (remove_all (stale_ids now ttl (get_or ms i [])) (get_or ms i [])).0
  unfolding cleanup_shards
  shard-cleanup [] w i = unfold remove_all stale_ids in refl
  shard-cleanup (m ∷ ms) w zero = refl
  shard-cleanup (m ∷ ms) w (suc i) = shard-cleanup ms _ i

  length-cleanup :
      (ms : List Shard) (w : P.World) → length (cleanup_shards P now ttl ms w).0 ≡ length ms
  unfolding cleanup_shards
  length-cleanup [] w = refl
  length-cleanup (m ∷ ms) w =
      omega (arith, length-cleanup ms (close_each P false (remove_all (stale_ids now ttl m) m).1 w))

  get-cleanup :
      (ms : List Shard) (w : P.World) (i : ℕ) (id : HandleId)
      → Distinct (get_or ms i [])
      → get (get_or (cleanup_shards P now ttl ms w).0 i []) id
        ≡ kept now ttl (get (get_or ms i []) id)
  get-cleanup ms w i id d = rw (shard-cleanup ms w i) (
      get-remove_all (stale_ids now ttl (get_or ms i [])) (get_or ms i []) id
      ∙ ground (arith, has-stale_ids now ttl (get_or ms i []) id d))

  -- The closed ids of the shards from number `k` on.
  has-closed :
      (ms : List Shard) (w : P.World) (k : ℕ) (id : HandleId)
      → ((i : ℕ) → Distinct (get_or ms i []))
      → ((i : ℕ) (j : HandleId) → get (get_or ms i []) j ≢ none → k + i ≡ j % num_shards)
      → has (cleanup_shards P now ttl ms w).2 id ≡ (
          if ltb (id % num_shards) k
          then false
          else dropped now ttl (get (get_or ms (id % num_shards - k) []) id))
  unfolding cleanup_shards get
  has-closed [] w k id d p = ground arith
  has-closed (m ∷ ms) w k id d p =
      let r = id % num_shards in
      let removed = (remove_all (stale_ids now ttl m) m).1 in
      let w' = close_each P false removed w in
      let first = has-removed_stale now ttl m id (d 0) in
      let rest =
        has-closed ms w' (suc k) id (λ i. d (suc i))
          (λ i j h. let e = p (suc i) j h in omega arith) in
      has-append (ids_of removed) (cleanup_shards P now ttl ms w').2 id
      ∙ elim (Option-cases (get m id)) [
        | inl g ↦ elim (ℕ-cases (r - k)) [
          | inl e ↦ rw e (ground (arith, first, rest, g))
          | inr (n, e) ↦
              let e' : r - suc k ≡ n = omega arith in rw e (ground (arith, first, rw e' at rest, g))
        ]
        | inr (s, g) ↦
            let here : k + 0 ≡ r = p 0 id (λ q. cc (g, q)) in
            let e : r - k ≡ 0 = omega arith in rw e (ground (arith, first, rest, g, here))
      ]

module _ (P : Providers) (now : ℕ) (r : HandleRegistry) (v : IsValid r) (w : P.World) where
  -- In a valid registry a cleanup removes exactly the handles that were idle for longer than the
  -- TTL, keeps the state of all others, and lists exactly the ids that it removed.
  pub lookup-cleanup :
      (id : HandleId)
      → (lookup id (cleanup_stale P now r w).0 ≡ kept now r.ttl (lookup id r))
        × (has (cleanup_stale P now r w).2 id ≡ dropped now r.ttl (lookup id r))
  unfolding cleanup_stale
  lookup-cleanup id = (
    get-cleanup P now r.ttl r.shards w (id % num_shards) id (v.shards.distinct _),
    has-closed P now r.ttl r.shards w 0 id v.shards.distinct
          (λ i j h. let e = v.shards.placed i j h in omega arith)
        ∙ ground arith,
  )

  pub cleanup-IsValid : IsValid (cleanup_stale P now r w).0
  unfolding cleanup_stale
  cleanup-IsValid = record {
    shards = record {
      size = length-cleanup P now r.ttl r.shards w ∙ v.shards.size;
      distinct = λ i.
          rw (shard-cleanup P now r.ttl r.shards w i)
            (remove_all-Distinct _ _ (v.shards.distinct i));
      placed = λ i id h. v.shards.placed i id (λ e.
          h (
            get-cleanup P now r.ttl r.shards w i id (v.shards.distinct i) ∙ ap (kept now r.ttl) e));
    };
    fresh = λ id q. (lookup-cleanup id).0 ∙ ap (kept now r.ttl) (v.fresh id q);
  }

ttl-with_handle :
    {R : Type 0} (now : ℕ) (id : HandleId) (r : HandleRegistry) (f : HandleState → R)
    → (with_handle now id f r).0.ttl ≡ r.ttl
unfolding with_handle
ttl-with_handle now id r f = ground arith

-- A handle that was used no longer than the TTL ago is there after a cleanup, with the access time
-- of that use.
pub cleanup-with_handle :
    {R : Type 0} (P : Providers) (now later : ℕ) (id : HandleId) (r : HandleRegistry) (w : P.World)
    (f : HandleState → R)
    → IsValid r
    → later ≤ now + r.ttl
    → lookup id (cleanup_stale P later (with_handle now id f r).0 w).0
      ≡ Option.map (touch now) (lookup id r)
cleanup-with_handle P now later id r w f v h =
    (lookup-cleanup P later _ (with_handle-IsValid now id r v f) w id).0
    ∙ ground (arith, (with_handle_lem now id r v f id).1, ttl-with_handle now id r f)

close_all_lem :
    (P : Providers) (ms : List Shard) (w : P.World)
    → ((close_all_shards P ms w).2 ≡ count_shards ms)
      × (count_shards (close_all_shards P ms w).0 ≡ 0)
unfolding close_all_shards count_shards
close_all_lem P [] w = (refl, refl)
close_all_lem P (m ∷ ms) w =
    let h = close_all_lem P ms (close_each P true m w) in (omega (arith, h.0), omega (arith, h.1))

-- `close_all` reports the number of the handles that were open, and leaves none.
count-close_all :
    (P : Providers) (r : HandleRegistry) (w : P.World)
    → ((close_all P r w).2 ≡ count r) × (count (close_all P r w).0 ≡ 0)
unfolding close_all count
count-close_all P r w = close_all_lem P r.shards w
