-- ===== src/Core/Handle.antt =====
-- core/src/handle.rs: the sharded handle registry. One operation runs at a time; the clock is an
-- argument, in nanoseconds. `iter` and `drain` go in the order of the modelled map.
pub mod Shards
pub mod Registry
pub mod Cleanup
use fs.Base.{
  ℕ, ◌+◌, ◌-◌, ◌%◌, ◌^◌, Bool, true, false, Option, none, some, List, [], ◌∷◌, ◌++◌, nat_eq, ltb,
  if◌then◌else◌, Text, length, get_or, set, replicate, map,
}
use fs.Base.Map.{Map, get, insert, remove, contains_key}
use fs.Sdk.Error.{FsResult, ok, err, invalid_handle}
use fs.Sdk.Types.{FileInfo, OpenFlags}
use fs.Sdk.Provider.{ProviderId, Handle, Providers}

abbrev pub HandleId : Type 0
HandleId = ℕ

abbrev pub num_shards : ℕ
num_shards = 64

pub record HandleState : Type 0 where
  pub provider : ProviderId
  pub path : Text
  pub flags : OpenFlags
  pub created_at : ℕ
  pub last_access : ℕ
  pub metadata : FileInfo
  pub provider_handle : Handle

abbrev pub Shard : Type 0
Shard = Map HandleId HandleState

pub record HandleRegistry : Type 0 where
  pub shards : List Shard
  pub next_id : ℕ
  pub ttl : ℕ

unfoldable pub new : ℕ → HandleRegistry
new ttl = record { shards = replicate num_shards []; next_id = 1; ttl = ttl }

abbrev pub shard_for : HandleId → HandleRegistry → Shard
shard_for id r = get_or r.shards (id % num_shards) []

-- The write lock on one shard: its new contents.
abbrev pub with_shard : HandleId → Shard → HandleRegistry → HandleRegistry
with_shard id shard r = record r { shards = set r.shards (id % num_shards) shard }

unfoldable pub register :
    ℕ
    → ProviderId
    → Text
    → OpenFlags
    → FileInfo
    → Handle
    → HandleRegistry
    → HandleRegistry × HandleId
register now provider path flags metadata provider_handle r =
    let id = r.next_id in
    let state : HandleState = record {
      provider = provider;
      path = path;
      flags = flags;
      created_at = now;
      last_access = now;
      metadata = metadata;
      provider_handle = provider_handle;
    } in
    let r' = record r { next_id = (r.next_id + 1) % 2 ^ 64 } in
    (with_shard id (insert (shard_for id r) id state) r', id)

-- `get` answers a reference, which holds the id and nothing else.
unfoldable pub get_ref : HandleId → HandleRegistry → Option HandleId
get_ref id r = if contains_key (shard_for id r) id then some id else none

unfoldable pub with_handle :
    {R : Type 0} → ℕ → HandleId → (HandleState → R) → HandleRegistry → HandleRegistry × FsResult R
with_handle now id f r = elim (get (shard_for id r) id) [
  | none ↦ (r, err (invalid_handle id))
  | some state ↦ (
    with_shard id (insert (shard_for id r) id (record state { last_access = now })) r,
    ok (f (record state { last_access = now })),
  )
]

abbrev pub is_stale : ℕ → ℕ → HandleState → Bool
is_stale now ttl state = ltb ttl (now - state.last_access)

unfoldable pub stale_ids : ℕ → ℕ → Shard → List HandleId
stale_ids now ttl [] = []
stale_ids now ttl ((id, state) ∷ m) =
    let rest = stale_ids now ttl m in if is_stale now ttl state then id ∷ rest else rest

-- `filter_map(|id| handles.remove(id))`: the shard that is left, and what was removed.
unfoldable pub remove_all : List HandleId → Shard → Shard × Shard
remove_all [] m = (m, [])
remove_all (id ∷ ids) m = elim (get m id) [
  | none ↦ remove_all ids m
  | some state ↦ let (m', removed) = remove_all ids (remove m id) in (m', (id, state) ∷ removed)
]

pub record HandleInfo : Type 0 where
  pub id : HandleId
  pub path : Text
  pub flags : OpenFlags
  pub created_at : ℕ
  pub last_access : ℕ

handle_info : HandleId × HandleState → HandleInfo
handle_info (id, state) = record {
  id = id;
  path = state.path;
  flags = state.flags;
  created_at = state.created_at;
  last_access = state.last_access;
}

unfoldable pub list_shards : List Shard → List HandleInfo
unfolding handle_info
list_shards [] = []
list_shards (m ∷ ms) = map handle_info m ++ list_shards ms

unfoldable pub list_handles : HandleRegistry → List HandleInfo
unfolding list_shards
list_handles r = list_shards r.shards

unfoldable pub count_shards : List Shard → ℕ
count_shards [] = 0
count_shards (m ∷ ms) = length m + count_shards ms

unfoldable pub count : HandleRegistry → ℕ
unfolding count_shards
count r = count_shards r.shards

module _ (P : Providers) where
  open P use {World}

  unfoldable pub close :
      HandleId → Bool → HandleRegistry → World → HandleRegistry × World × FsResult (Unit {0})
  close id sync r w = elim (get (shard_for id r) id) [
    | none ↦ (r, w, err (invalid_handle id))
    | some state ↦
        let (w', result) = P.close state.provider state.provider_handle sync w in
        (with_shard id (remove (shard_for id r) id) r, w', result)
  ]

  -- Every removed handle is closed at its provider, and the outcome is ignored.
  unfoldable pub close_each : Bool → Shard → World → World
  close_each sync [] w = w
  close_each sync ((id, state) ∷ m) w =
      close_each sync m (P.close state.provider state.provider_handle sync w).0

  -- The loop of `cleanup_stale` over the shards: the shards, the world and the closed ids.
  unfoldable pub cleanup_shards : ℕ → ℕ → List Shard → World → List Shard × World × List HandleId
  cleanup_shards now ttl [] w = ([], w, [])
  cleanup_shards now ttl (m ∷ ms) w =
      let (m', removed) = remove_all (stale_ids now ttl m) m in
      let (ms', w', closed) = cleanup_shards now ttl ms (close_each false removed w) in
      (m' ∷ ms', w', map (λ (e : HandleId × HandleState). e.0) removed ++ closed)

  unfoldable pub cleanup_stale : ℕ → HandleRegistry → World → HandleRegistry × World × List HandleId
  cleanup_stale now r w =
      let (shards', w', closed) = cleanup_shards now r.ttl r.shards w in
      (record r { shards = shards' }, w', closed)

  unfoldable pub close_all_shards : List Shard → World → List Shard × World × ℕ
  close_all_shards [] w = ([], w, 0)
  close_all_shards (m ∷ ms) w =
      let (ms', w', total) = close_all_shards ms (close_each true m w) in
      ([] ∷ ms', w', length m + total)

  unfoldable pub close_all : HandleRegistry → World → HandleRegistry × World × ℕ
  close_all r w =
      let (shards', w', total) = close_all_shards r.shards w in
      (record r { shards = shards' }, w', total)
