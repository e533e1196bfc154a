-- ===== src/Core/Handle/Shards.antt =====
-- One write in one shard, seen through the lookup of every id.
use fs.Base.{
  ℕ, zero, suc, ◌+◌, ◌<◌, ◌%◌, ◌≡◌, ◌≢◌, ◌∙◌, Bool, true, false, Option, none, some, List, [], ◌∷◌,
  nat_eq, eqb, if◌then◌else◌, length, get_or, set, get_or-set, length-set, arith,
}
use fs.Base.Map.{
  get, insert, remove, Distinct, get-insert, get-remove, insert-Distinct, remove-Distinct,
}
use fs.Core.Handle.{HandleId, HandleState, Shard, num_shards, count_shards}

-- The handles that an id reaches.
abbrev pub find : List Shard → HandleId → Option HandleState
find shards id = get (get_or shards (id % num_shards) []) id

-- Every shard holds an id once, and only ids of its own number.
pub record AreShards (shards : List Shard) : Type 0 where
  pub size : length shards ≡ num_shards
  pub distinct : (i : ℕ) → Distinct (get_or shards i [])
  pub placed : (i : ℕ) (id : HandleId) → get (get_or shards i []) id ≢ none → i ≡ id % num_shards

Distinct-if : (b : Bool) (m n : Shard) → Distinct m → Distinct n → Distinct (if b then m else n)
Distinct-if true m n d d' = d
Distinct-if false m n d d' = d'

module _ (shards : List Shard) (v : AreShards shards) (id : HandleId) where
  in_range : id % num_shards < length shards
  in_range = omega (arith, v.size)

  abbrev here : Shard
  here = get_or shards (id % num_shards) []

  pub find-insert :
      (s : HandleState) (j : HandleId)
      → find (set shards (id % num_shards) (insert here id s)) j
        ≡ (if eqb id j then some s else find shards j)
  find-insert s j = ground (
    arith,
    get_or-set shards (id % num_shards) (insert here id s) (j % num_shards) [] in_range,
    get-insert here id s j,
  )

  pub find-remove :
      (j : HandleId)
      → find (set shards (id % num_shards) (remove here id)) j
        ≡ (if eqb id j then none else find shards j)
  find-remove j = ground (
    arith,
    get_or-set shards (id % num_shards) (remove here id) (j % num_shards) [] in_range,
    get-remove here id j,
  )

  pub insert-AreShards :
      (s : HandleState) → AreShards (set shards (id % num_shards) (insert here id s))
  insert-AreShards s = record {
    size = length-set shards (id % num_shards) (insert here id s) ∙ v.size;
    distinct = λ i. rw (get_or-set shards (id % num_shards) (insert here id s) i [] in_range) (
        Distinct-if (eqb (id % num_shards) i) _ _ (insert-Distinct here id s (v.distinct _))
          (v.distinct i));
    placed = λ i j h. ground (
      arith,
      get_or-set shards (id % num_shards) (insert here id s) i [] in_range,
      get-insert here id s j,
      v.placed i j,
    );
  }

  pub remove-AreShards : AreShards (set shards (id % num_shards) (remove here id))
  remove-AreShards = record {
    size = length-set shards (id % num_shards) (remove here id) ∙ v.size;
    distinct = λ i. rw (get_or-set shards (id % num_shards) (remove here id) i [] in_range) (
        Distinct-if (eqb (id % num_shards) i) _ _ (remove-Distinct here id (v.distinct _))
          (v.distinct i));
    placed = λ i j h. ground (
      arith,
      get_or-set shards (id % num_shards) (remove here id) i [] in_range,
      get-remove here id j,
      v.placed i j,
    );
  }

pub count-set :
    (shards : List Shard) (i : ℕ) (m : Shard)
    → i < length shards
    → count_shards (set shards i m) + length (get_or shards i []) ≡ count_shards shards + length m
unfolding count_shards
count-set [] i m h = absurd (omega arith)
count-set (x ∷ xs) zero m h = omega arith
count-set (x ∷ xs) (suc i) m h = omega (arith, count-set xs i m)
