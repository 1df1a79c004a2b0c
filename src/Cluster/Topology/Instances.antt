-- ===== src/Cluster/Topology/Instances.antt =====
-- What the methods of a cluster do to its instances.
use activerecord.Prelude.{
  ℕ, zero, suc, ◌<◌, List, [], ◌∷◌, ◌++◌, length, length-append, get_elem?, get_elem?-set_self,
  none, some, true, false, ◌≡◌, refl, sym, ap, ◌∙◌, arith, foldl, false≢true, ◌⊎◌, Bool-cases,
  append-nil, append_assoc, flat_map, set, inl, inr,
}
use activerecord.Go.{ok, panic}
use activerecord.Cluster.Shard.{Instance, ServerMode, mode_master, mode_replica, mode_other, Shard}
use activerecord.Cluster.Shard.Rotation.{Online, next_replica-Online, get_elem?-lt}
use activerecord.Cluster.Topology.{
  Cluster, cluster_next_master, new_cluster, ids, append, shard_count, put_shard, any_online,
  found_replica, cluster_next_replica, shard_instances, add_by_mode, sort_instances,
  set_shard_instances,
}

-- The instances of one mode, in their order.
of_mode : ServerMode → Instance → List Instance → List Instance
of_mode mode_master i is = i ∷ is
of_mode mode_replica i is = is
of_mode (mode_other m) i is = is

pub masters_of : List Instance → List Instance
masters_of [] = []
masters_of (i ∷ is) = of_mode i.config.mode i (masters_of is)

replica_mode : ServerMode → Instance → List Instance → List Instance
replica_mode mode_master i is = is
replica_mode mode_replica i is = i ∷ is
replica_mode (mode_other m) i is = is

pub replicas_of : List Instance → List Instance
replicas_of [] = []
replicas_of (i ∷ is) = replica_mode i.config.mode i (replicas_of is)

add_case :
    (mode : ServerMode) (s : Shard) (i : Instance) (ms rs : List Instance)
    → ((add_by_mode mode s i).masters ++ ms ≡ s.masters ++ of_mode mode i ms)
      × ((add_by_mode mode s i).replicas ++ rs ≡ s.replicas ++ replica_mode mode i rs)
unfolding add_by_mode of_mode replica_mode
add_case mode_master s i ms rs = (append_assoc s.masters (i ∷ []) ms, refl)
add_case mode_replica s i ms rs = (refl, append_assoc s.replicas (i ∷ []) rs)
add_case (mode_other m) s i ms rs = (refl, refl)

sort_instances_lem :
    (is : List Instance) (s : Shard)
    → ((sort_instances s is).masters ≡ s.masters ++ masters_of is)
      × ((sort_instances s is).replicas ≡ s.replicas ++ replicas_of is)
unfolding sort_instances masters_of replicas_of
sort_instances_lem [] s = (sym (append-nil s.masters), sym (append-nil s.replicas))
sort_instances_lem (i ∷ is) s =
    let (m, r) = sort_instances_lem is (add_by_mode i.config.mode s i) in
    let (m', r') = add_case i.config.mode s i (masters_of is) (replicas_of is) in (m ∙ m', r ∙ r')

-- After SetShardInstances the shard lists the masters it was given, in their order, and then the
-- replicas; instances of another mode are gone, and the hash is still the old one.
pub shard_instances-set :
    (c : Cluster) (n : ℕ) (is : List Instance)
    → n < shard_count c
    → (c' : Cluster) × (set_shard_instances c n is ≡ ok c')
      × (shard_instances c' n ≡ ok (masters_of is ++ replicas_of is))
      × (c'.hash ≡ c.hash)
unfolding set_shard_instances shard_instances shard_count
shard_instances-set c n is h =
    let (s, here) = get_elem?-lt c.shards n h in
    let cleared = record s { masters = []; replicas = [] } in
    let (m, r) = sort_instances_lem is cleared in
    let there = get_elem?-set_self c.shards n s (sort_instances cleared is) here in
    (
      record c { shards = set c.shards n (sort_instances cleared is) },
      rw (here, set_shard_instances),
      rw (there, shard_instances) (rw (m, r)),
      refl,
    )

any_online_lem :
    (xs : List Instance) → any_online xs ≡ true → (i : ℕ) × (inst : Instance) × Online xs i inst
unfolding any_online
any_online_lem [] h = absurd (false≢true h)
any_online_lem (x ∷ xs) h = elim (Bool-cases x.offline) [
  | inl down ↦
      let (i, inst, on) = any_online_lem xs (rw (down, any_online) at h) in
      (suc i, inst, record { there = on.there; up = on.up })
  | inr up ↦ (0, x, record { there = refl; up = up })
]

any_online_none :
    (xs : List Instance) (i : ℕ) (inst : Instance) → any_online xs ≡ false → ¬ (Online xs i inst)
unfolding any_online
any_online_none [] i inst h on = cc (on.there)
any_online_none (x ∷ xs) zero inst h on = ground (arith, on.there, on.up)
any_online_none (x ∷ xs) (suc i) inst h on =
    any_online_none xs i inst (ground arith) (record { there = on.there; up = on.up })

-- Cluster.NextReplica finds a replica exactly when one of the shard is online, and then the one that
-- it returns is; when none is, nothing changes. It never panics on a shard of the cluster.
pub cluster_next_replica_lem :
    (c : Cluster) (n random : ℕ) (s : Shard)
    → get_elem? c.shards n ≡ some s
    → s.cur_replica < length s.replicas
    → ((i : ℕ) × (inst : Instance) × (c' : Cluster) × (cluster_next_replica c n random
          ≡ ok (some inst, c'))
        × Online s.replicas i inst
        × (c'.hash ≡ c.hash))
      ⊎ ((cluster_next_replica c n random ≡ ok (none, c))
          × ((i : ℕ) (inst : Instance) → ¬ (Online s.replicas i inst)))
unfolding cluster_next_replica put_shard found_replica
cluster_next_replica_lem c n random s here h = elim (Bool-cases (any_online s.replicas)) [
  | inl e ↦
      let (i, inst, on) = any_online_lem s.replicas e in
      let (found, s', j, run, on', b, same) = next_replica-Online s i inst random on h in
      inl (
        j,
        found,
        record c { shards = set c.shards n s' },
        rw (here, cluster_next_replica) (rw (e, run)),
        on',
        refl,
      )
  | inr e ↦
      inr (rw (here, cluster_next_replica) (rw e), λ i inst. any_online_none s.replicas i inst e)
]

-- A cluster that was built by Append.
pub built : List Shard → Cluster
built shards = foldl append new_cluster shards

foldl_shards : (more : List Shard) (c : Cluster) → (foldl append c more).shards ≡ c.shards ++ more
unfolding append
foldl_shards [] c = sym (append-nil c.shards)
foldl_shards (s ∷ more) c = foldl_shards more (append c s) ∙ append_assoc c.shards (s ∷ []) more

foldl_hash :
    (more : List Shard) (c : Cluster)
    → c.hash ≡ ids c.shards
    → (foldl append c more).hash ≡ ids (foldl append c more).shards
unfolding append
foldl_hash [] c h = h
foldl_hash (s ∷ more) c h = foldl_hash more (append c s) refl

-- The shards that Append adds to a new cluster are the cluster's, in their order, and the hash was
-- written the id of each of their instances.
pub built_lem :
    (shards : List Shard) → ((built shards).shards ≡ shards) × ((built shards).hash ≡ ids shards)
unfolding built new_cluster ids flat_map
built_lem shards =
    let s = foldl_shards shards new_cluster in (s, foldl_hash shards new_cluster refl ∙ ap ids s)

pub shard_count-append : (c : Cluster) (s : Shard) → shard_count (append c s) ≡ suc (shard_count c)
unfolding append shard_count
shard_count-append c s = length-append c.shards (s ∷ []) ∙ grind arith

pub shard_count-new : shard_count new_cluster ≡ 0
unfolding new_cluster shard_count
shard_count-new = refl

get_elem?-length : {A : Type 0} (xs : List A) → get_elem? xs (length xs) ≡ none
get_elem?-length [] = refl
get_elem?-length (x ∷ xs) = get_elem?-length xs

-- The number of the shards is not the number of a shard.
pub past_the_end :
    (c : Cluster) (random : ℕ)
    → (cluster_next_master c (shard_count c) random ≡ panic)
      × (cluster_next_replica c (shard_count c) random ≡ panic)
unfolding shard_count cluster_next_master cluster_next_replica
past_the_end c random =
    let e = get_elem?-length c.shards in
    (rw (e, cluster_next_master) refl, rw (e, cluster_next_replica) refl)
