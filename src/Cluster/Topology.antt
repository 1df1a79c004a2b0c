-- ===== src/Cluster/Topology.antt =====
-- Cluster of pkg/activerecord/cluster.go: its shards under one lock, each method one step. The hash
-- is the bytes that were written to it since its last Reset; a checksum of them is a parameter.
pub mod Instances
use activerecord.Prelude.{
  ℕ, zero, suc, ◌+◌, ◌<◌, List, [], ◌∷◌, ◌++◌, length, get_elem?, Option, none, some, Bool, true,
  false, not, if◌then◌else◌, flat_map, map, set,
}
use activerecord.Go.{Result, ok, err, panic, Bytes}
use activerecord.Cluster.Shard.{
  Instance, InstanceConfig, ServerMode, mode_master, mode_replica, mode_other, Shard, NoError,
  next_master, next_replica, instances,
}

pub record Cluster : Type 0 where
  pub shards : List Shard
  pub hash : Bytes

unfoldable pub new_cluster : Cluster
new_cluster = record { shards = []; hash = [] }

-- `c.hash.Write` of the ParamsID of each instance of each shard.
unfoldable pub ids : List Shard → Bytes
ids shards = flat_map (λ s. flat_map (λ i. i.params_id) (instances s)) shards

unfoldable pub append : Cluster → Shard → Cluster
append c shard = record { shards = c.shards ++ (shard ∷ []); hash = ids (c.shards ++ (shard ∷ [])) }

unfoldable pub shard_count : Cluster → ℕ
shard_count c = length c.shards

put_shard : Cluster → ℕ → Result NoError (Instance × Shard) → Result NoError (Instance × Cluster)
put_shard c n (ok (inst, s)) = ok (inst, record c { shards = set c.shards n s })
put_shard c n (err e) = err e
put_shard c n panic = panic

-- `c.shards[shardNum]` panics out of range.
pub cluster_next_master : Cluster → ℕ → ℕ → Result NoError (Instance × Cluster)
cluster_next_master c n random = elim (get_elem? c.shards n) [
  | none ↦ panic
  | some s ↦ put_shard c n (next_master s random)
]

pub any_online : List Instance → Bool
any_online [] = false
any_online (i ∷ is) = if i.offline then any_online is else true

found_replica : Result NoError (Instance × Cluster) → Result NoError (Option Instance × Cluster)
found_replica (ok (inst, c)) = ok (some inst, c)
found_replica (err e) = err e
found_replica panic = panic

-- `ShardInstance{}, false` is none.
pub cluster_next_replica : Cluster → ℕ → ℕ → Result NoError (Option Instance × Cluster)
cluster_next_replica c n random = elim (get_elem? c.shards n) [
  | none ↦ panic
  | some s ↦
      if any_online s.replicas
      then found_replica (put_shard c n (next_replica s random))
      else ok (none, c)
]

pub shard_instances : Cluster → ℕ → Result NoError (List Instance)
shard_instances c n = elim (get_elem? c.shards n) [ none ↦ panic | some s ↦ ok (instances s) ]

-- The loop that sorts the instances into masters and replicas; other modes are dropped.
add_by_mode : ServerMode → Shard → Instance → Shard
add_by_mode mode_master s i = record s { masters = s.masters ++ (i ∷ []) }
add_by_mode mode_replica s i = record s { replicas = s.replicas ++ (i ∷ []) }
add_by_mode (mode_other m) s i = s

pub sort_instances : Shard → List Instance → Shard
sort_instances s [] = s
sort_instances s (i ∷ is) = sort_instances (add_by_mode i.config.mode s i) is

-- The counters stay, and so does the hash.
pub set_shard_instances : Cluster → ℕ → List Instance → Result NoError Cluster
set_shard_instances c n is = elim (get_elem? c.shards n) [
  | none ↦ panic
  | some s ↦ ok (record c {
    shards = set c.shards n (sort_instances (record s { masters = []; replicas = [] }) is);
  })
]

-- `bytes.Equal(c.hash.Sum(nil), c2.hash.Sum(nil))`, with nil for none.
unfoldable pub equal : (sum : Bytes → ℕ) → (ℕ → ℕ → Bool) → Option Cluster → Option Cluster → Bool
equal sum same none c2 = false
equal sum same (some c) none = false
equal sum same (some c) (some c2) = same (sum c.hash) (sum c2.hash)
