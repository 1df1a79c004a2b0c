-- ===== src/Tests/Loading.antt =====
-- Configurations, the cacher, connections and Box at concrete inputs.
use activerecord.Prelude.{
  ◌<◌, [], ◌∷◌, Option, none, some, true, false, ◌≡◌, refl, arith, length, ◌==◌, map, All, flat_map,
  if◌then◌else◌,
}
use activerecord.Go.Strings.{same_bytes}
use activerecord.Go.{ok, err, panic, Bytes}
use activerecord.Cluster.Shard.{Instance, mode_master}
use activerecord.Cluster.Topology.{Cluster, shard_count, ids, append, new_cluster}
use activerecord.Cluster.Loading.{
  Config, MapGlobParam, OptionCreator, load_instances, get_cluster_info, cluster_globs, load_all,
  get_shard_info, master_entry, load_masters, load_replicas, instance_of, nonempty, split_comma,
}
use activerecord.Cluster.Loading.Results.{Loaded, load_instances_lem}
use activerecord.Cluster.Cacher.{Cacher, find, get}
use activerecord.Cluster.Cacher.Freshness.{get_stale}
use activerecord.Cluster.Connections.{get_or_add, get_connection, add, connected, connect}
use activerecord.Cluster.Settings.{DefaultConfig, int_value, bool_value}
use activerecord.Octopus.Connecting.{Cachers, master_type, invalid_shard, box}
use activerecord.Octopus.Connecting.Choice.{box_past_the_end}
use activerecord.Tests.Clusters.{one_shard}

added : get_or_add [] (1 ∷ []) (some 7) ≡ (((1 ∷ []), 7) ∷ [], ok 7)
unfolding get_or_add get_connection add connected
added = refl

failed : get_or_add [] (1 ∷ []) none ≡ ([], err connect)
unfolding get_or_add get_connection add connected
failed = refl

-- A configuration that has one master at the path "a", and nothing else.
abbrev only_a : Bytes → Option Bytes
only_a p = if same_bytes p (b'a' ∷ []) then some (b'h' ∷ []) else none

abbrev config : Config
config = record { int_of = λ p. none; duration_of = λ p. none; string_of = only_a; last_update = 3 }

abbrev globs : MapGlobParam
globs = record { timeout = 100; pool_size = 8 }

abbrev creator : OptionCreator
creator cfg = some (cfg.addr, 0)

abbrev host : Instance
host = record {
  params_id = b'h' ∷ [];
  config = record { timeout = 100; mode = mode_master; pool_size = 1; addr = b'h' ∷ [] };
  options = 0;
  offline = false;
}

abbrev loaded : Cluster
loaded = record {
  shards = record { masters = host ∷ []; replicas = []; cur_master = 0; cur_replica = 0 } ∷ [];
  hash = b'h' ∷ [];
}

a_loads : get_cluster_info config (b'a' ∷ []) globs creator ≡ ok loaded
unfolding get_cluster_info cluster_globs load_all get_shard_info master_entry load_masters
    load_replicas load_instances instance_of nonempty split_comma append ids flat_map new_cluster
a_loads = refl

host_loads : load_instances mode_master 100 1 creator ((b'h' ∷ []) ∷ []) ≡ ok (host ∷ [])
unfolding load_instances instance_of nonempty
host_loads = refl

load_instances_lem_example :
    (map (λ i. i.config.addr) (host ∷ []) ≡ (b'h' ∷ []) ∷ [])
    × All (Loaded mode_master 100 1 creator) (host ∷ [])
load_instances_lem_example =
    load_instances_lem mode_master 100 1 creator ((b'h' ∷ []) ∷ []) (host ∷ []) host_loads

-- The path "b" was stored at the time 1; the configuration changed at 3.
abbrev cached : Cacher
cached = record { container = ((b'b' ∷ []), one_shard) ∷ []; update_time = 1 }

a_absent : find (b'a' ∷ []) cached.container ≡ none
unfolding find
a_absent = refl

b_there : find (b'b' ∷ []) cached.container ≡ some one_shard
unfolding find
b_there = refl

get_stale_example :
    (s' : Cacher) × (get (λ h. length h) (λ a b. a == b) config globs creator cached (b'a' ∷ []) 5
      ≡ (s', ok (some loaded)))
    × (get (λ h. length h) (λ a b. a == b) config globs creator s' (b'b' ∷ []) 6
        ≡ (s', ok (some one_shard)))
get_stale_example =
    get_stale (λ h. length h) (λ a b. a == b) config globs creator cached (b'b' ∷ []) (b'a' ∷ []) 5
      6 one_shard loaded b_there a_absent refl a_loads (omega arith)

-- A pool size that is a Boolean counts as missing.
abbrev settings : DefaultConfig
settings = record { cfg = ((1 ∷ []), bool_value true) ∷ ((2 ∷ []), int_value 5) ∷ []; created = 1 }

abbrev cachers : Cachers
cachers = record { cacher = record cached { update_time = 4 }; container = [] }

box_past_the_end_example :
    (shard_count one_shard < 2
      → box
          (λ h. length h)
          (λ a b. a == b)
          config
          globs
          creator
          cachers
          2
          master_type
          (b'b' ∷ [])
          5
          9
          (some 7)
        ≡ (cachers, err invalid_shard))
    × (box
          (λ h. length h)
          (λ a b. a == b)
          config
          globs
          creator
          cachers
          (shard_count one_shard)
          master_type
          (b'b' ∷ [])
          5
          9
          (some 7)
        ≡ (cachers, panic))
box_past_the_end_example =
    box_past_the_end (λ h. length h) (λ a b. a == b) config globs creator cachers master_type
      (b'b' ∷ []) 5 9 2 (some 7) one_shard b_there (omega arith) (λ e. cc)
