-- ===== src/Octopus/Connecting/Choice.antt =====
-- Which shards Box accepts, and what it returns for them.
use activerecord.Prelude.{ℕ, ◌<◌, ◌≤◌, Option, some, Bool, true, false, ltb, ◌≡◌, ◌≢◌, refl, arith}
use activerecord.Go.{err, panic, Bytes}
use activerecord.Cluster.Topology.{Cluster, shard_count}
use activerecord.Cluster.Loading.{Config, MapGlobParam, OptionCreator}
use activerecord.Cluster.Cacher.{find}
use activerecord.Cluster.Cacher.Freshness.{get_fresh}
use activerecord.Cluster.Topology.Instances.{past_the_end}
use activerecord.Octopus.Connecting.{
  InstanceType, replica_type, replica_or_master_type, master_type, unknown_type, Cachers, choose,
  from_master, from_replica, connect_chosen, use_cluster, box, invalid_shard,
}

choose_past_the_end :
    (type : InstanceType) (c : Cluster) (random : ℕ) (made : Option ℕ)
    → type ≢ unknown_type
    → choose type c (shard_count c) random made ≡ panic
unfolding choose from_replica from_master
choose_past_the_end replica_type c random made known = rw ((past_the_end c random).1) refl
choose_past_the_end replica_or_master_type c random made known = rw ((past_the_end c random).1) refl
choose_past_the_end master_type c random made known = rw ((past_the_end c random).0) refl
choose_past_the_end unknown_type c random made known = absurd (known refl)

module _ (sum : Bytes → ℕ) (same : ℕ → ℕ → Bool) where
  -- A shard number beyond the number of the shards is refused; but one that is equal to it passes the
  -- test, though the last shard has the number before, and Box panics, whatever known type of
  -- instance is asked for. (The cluster is stored and up to date.)
  pub box_past_the_end :
      (cfg : Config) (globs : MapGlobParam) (create : OptionCreator) (s : Cachers)
      (type : InstanceType) (path : Bytes) (now random shard : ℕ) (made : Option ℕ) (c : Cluster)
      → find path s.cacher.container ≡ some c
      → cfg.last_update ≤ s.cacher.update_time
      → type ≢ unknown_type
      → (shard_count c < shard
          → box sum same cfg globs create s shard type path now random made
            ≡ (s, err invalid_shard))
        × (box sum same cfg globs create s (shard_count c) type path now random made ≡ (s, panic))
  unfolding box use_cluster connect_chosen
  box_past_the_end cfg globs create s type path now random shard made c here fresh known =
      let got = get_fresh sum same cfg globs create s.cacher path now c here fresh in
      (
        λ over.
            rw (got, box) (let e : ltb (shard_count c) shard ≡ true = ground arith in rw e refl),
        rw (got, box)
            (let e : ltb (shard_count c) (shard_count c) ≡ false = ground arith in
              rw e (rw (choose_past_the_end type c random made known) refl)),
      )
