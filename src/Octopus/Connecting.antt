-- ===== src/Octopus/Connecting.antt =====
-- Box of pkg/octopus/box.go: it takes the cluster of a path from the cacher, chooses an instance of a
-- shard, and takes or makes a connection to it. The cluster stands in the cacher as a pointer, so its
-- counters are written back. Each connection of the pool is one of this package. `now`, `random` and
-- the outcome of GetConnection are arguments.
pub mod Choice
use activerecord.Prelude.{
  ℕ, List, [], ◌∷◌, Option, none, some, Bool, true, false, ltb, if◌then◌else◌,
}
use activerecord.Go.{Result, ok, err, panic, Bytes}
use activerecord.Cluster.Shard.{Instance, NoError}
use activerecord.Cluster.Topology.{Cluster, shard_count, cluster_next_master, cluster_next_replica}
use activerecord.Cluster.Loading.{Config, MapGlobParam, OptionCreator, LoadError}
use activerecord.Cluster.Cacher.{Cacher, get}
use activerecord.Cluster.Connections.{Container, PoolError, get_or_add}

pub data InstanceType : Type 0 where
  replica_type replica_or_master_type master_type unknown_type : InstanceType

pub data BoxError : Type 0 where
  config_error : LoadError → BoxError
  invalid_shard replicas_not_set : BoxError
  connection_error : PoolError → BoxError

-- ConfigCacher and ConnectionCacher.
pub record Cachers : Type 0 where
  pub cacher : Cacher
  pub container : Container

-- `configBox`: the id of its parameters, and the outcome of the connector on it.
abbrev pub Chosen : Type 0
Chosen = Bytes × Option ℕ × Cluster

from_master : Option ℕ → Result NoError (Instance × Cluster) → Result BoxError Chosen
from_master made (ok (inst, c)) = ok (inst.params_id, made, c)
from_master made (err e) = panic
from_master made panic = panic

from_replica :
    Result BoxError Chosen
    → Option ℕ
    → Result NoError (Option Instance × Cluster)
    → Result BoxError Chosen
from_replica otherwise made (ok (some inst, c)) = ok (inst.params_id, made, c)
from_replica otherwise made (ok (none, c)) = otherwise
from_replica otherwise made (err e) = panic
from_replica otherwise made panic = panic

-- An unknown type leaves the zero instance, whose options the connector refuses.
pub choose : InstanceType → Cluster → ℕ → ℕ → Option ℕ → Result BoxError Chosen
choose replica_type c shard random made =
    from_replica (err replicas_not_set) made (cluster_next_replica c shard random)
choose replica_or_master_type c shard random made =
    from_replica (from_master made (cluster_next_master c shard random)) made
      (cluster_next_replica c shard random)
choose master_type c shard random made = from_master made (cluster_next_master c shard random)
choose unknown_type c shard random made = ok ([], none, c)

with_pool : Cachers → Container × Result PoolError ℕ → Cachers × Result BoxError ℕ
with_pool s (m, ok conn) = (record s { container = m }, ok conn)
with_pool s (m, err e) = (record s { container = m }, err (connection_error e))
with_pool s (m, panic) = (record s { container = m }, panic)

connect_chosen : Cachers → Bytes → Result BoxError Chosen → Cachers × Result BoxError ℕ
connect_chosen s path (ok (id, made, c)) =
    with_pool
      (record s { cacher = record (s.cacher) { container = (path, c) ∷ s.cacher.container } })
      (get_or_add s.container id made)
connect_chosen s path (err e) = (s, err e)
connect_chosen s path panic = (s, panic)

-- A nil cluster would be dereferenced.
use_cluster :
    Cachers
    → Bytes
    → InstanceType
    → ℕ
    → ℕ
    → Option ℕ
    → Result LoadError (Option Cluster)
    → Cachers × Result BoxError ℕ
use_cluster s path type shard random made (ok (some c)) =
    if ltb (shard_count c) shard
    then (s, err invalid_shard)
    else connect_chosen s path (choose type c shard random made)
use_cluster s path type shard random made (ok none) = (s, panic)
use_cluster s path type shard random made (err e) = (s, err (config_error e))
use_cluster s path type shard random made panic = (s, panic)

module _ (sum : Bytes → ℕ) (same : ℕ → ℕ → Bool) where
  pub box :
      Config
      → MapGlobParam
      → OptionCreator
      → Cachers
      → ℕ
      → InstanceType
      → Bytes
      → ℕ
      → ℕ
      → Option ℕ
      → Cachers × Result BoxError ℕ
  box cfg globs create s shard type path now random made =
      let (cacher, loaded) = get sum same cfg globs create s.cacher path now in
      use_cluster (record s { cacher = cacher }) path type shard random made loaded
