-- ===== src/Tests/Clusters.antt =====
-- Shards, clusters, configurations and connections of pkg/activerecord at concrete inputs.
use activerecord.Prelude.{ℕ, ◌<◌, [], ◌∷◌, Bool, true, false, ◌≡◌, refl, arith, length}
use activerecord.Go.{ok}
use activerecord.Cluster.Shard.{
  Instance, ServerMode, mode_master, mode_replica, Shard, next_master, instances,
}
use activerecord.Cluster.Shard.Rotation.{Online, next_master-Online}
use activerecord.Cluster.Topology.{Cluster, shard_count}

abbrev pub an_instance : ServerMode → ℕ → Bool → Instance
an_instance mode id offline = record {
  params_id = id ∷ [];
  config = record { timeout = 100; mode = mode; pool_size = 1; addr = id ∷ [] };
  options = id;
  offline = offline;
}

abbrev pub two_masters : Shard
two_masters = record {
  masters = an_instance mode_master 1 true ∷ an_instance mode_master 2 false ∷ [];
  replicas = an_instance mode_replica 3 false ∷ [];
  cur_master = 0;
  cur_replica = 0;
}

second_master : Online two_masters.masters 1 (an_instance mode_master 2 false)
second_master = record { there = refl; up = refl }

only_replica : Online two_masters.replicas 0 (an_instance mode_replica 3 false)
only_replica = record { there = refl; up = refl }

next_master-Online_example :
    (found : Instance) × (s' : Shard) × (j : ℕ) × (next_master two_masters 9 ≡ ok (found, s'))
    × Online two_masters.masters j found
    × (s'.cur_master < length s'.masters)
    × (instances s' ≡ instances two_masters)
next_master-Online_example =
    next_master-Online two_masters 1 (an_instance mode_master 2 false) 9 second_master (omega arith)

abbrev pub one_shard : Cluster
one_shard = record { shards = two_masters ∷ []; hash = 1 ∷ 2 ∷ 3 ∷ [] }

one_shard_count : 0 < shard_count one_shard
unfolding shard_count
one_shard_count = omega arith
