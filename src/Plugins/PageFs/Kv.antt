-- ===== src/Plugins/PageFs/Kv.antt =====
-- The trait `KvBackend` of plugins/pagefs/src/lib.rs, and its implementation `InMemoryKv`.
-- The laws say that a call reaches the store: the backends for TiKV and S3 drop their errors.
use fs.Base.{◌≡◌, Option, none, [], if◌then◌else◌, ◌==◌, some, text_eq, starts_with}
use fs.Base.Map
use fs.Base.Map.{Map, get-remove, get}
use fs.Base.Order.{
  insert_sorted, IsSorted, get-insert_sorted, insert_sorted-IsSorted, remove-IsSorted,
}
use fs.Base.Ranges.{range_from, take_prefixed, range-get}
use fs.Sdk.Provider.{Bytes}

pub record KvBackend : Type 1 where
  pub Kv : Type 0
  pub get : Bytes → Kv → Option Bytes
  pub set : Bytes → Bytes → Kv → Kv
  pub scan : Bytes → Kv → Map Bytes Bytes
  pub delete : Bytes → Kv → Kv
  pub get-set :
      (key value : Bytes) (kv : Kv) (j : Bytes)
      → get j (set key value kv) ≡ (if key == j then some value else get j kv)
  pub get-delete :
      (key : Bytes) (kv : Kv) (j : Bytes)
      → get j (delete key kv) ≡ (if key == j then none else get j kv)
  pub get-scan :
      (prefix : Bytes) (kv : Kv) (j : Bytes)
      → Map.get (scan prefix kv) j ≡ (if starts_with j prefix then get j kv else none)

-- The store in memory: a `BTreeMap` from keys to values.
abbrev pub InMemoryKv : Type 0
InMemoryKv = (m : Map Bytes Bytes) × IsSorted m

unfoldable pub set : Bytes → Bytes → InMemoryKv → InMemoryKv
set key value (m, s) = (insert_sorted m key value, insert_sorted-IsSorted m key value s)

unfoldable pub scan : Bytes → InMemoryKv → Map Bytes Bytes
unfolding range_from take_prefixed
scan prefix (m, s) = take_prefixed prefix (range_from prefix m)

unfoldable pub delete : Bytes → InMemoryKv → InMemoryKv
delete key (m, s) = (Map.remove m key, remove-IsSorted m key s)

unfoldable pub new : InMemoryKv
new = ([], tt)

pub memory-set :
    (key value : Bytes) (kv : InMemoryKv) (j : Bytes)
    → get (set key value kv).0 j ≡ (if key == j then some value else get kv.0 j)
unfolding set
memory-set key value (m, s) j = get-insert_sorted m key value j

pub memory-delete :
    (key : Bytes) (kv : InMemoryKv) (j : Bytes)
    → get (delete key kv).0 j ≡ (if key == j then none else get kv.0 j)
unfolding delete
memory-delete key (m, s) j = get-remove m key j

-- In the store in memory a scan finds exactly the keys of its prefix, with their values.
pub memory-scan :
    (prefix : Bytes) (kv : InMemoryKv) (j : Bytes)
    → get (scan prefix kv) j ≡ (if starts_with j prefix then get kv.0 j else none)
unfolding scan
memory-scan prefix (m, s) j = range-get prefix m j s

abbrev pub memory : KvBackend
memory = record {
  Kv = InMemoryKv;
  get = λ key kv. get kv.0 key;
  set = set;
  scan = scan;
  delete = delete;
  get-set = memory-set;
  get-delete = memory-delete;
  get-scan = memory-scan;
}
