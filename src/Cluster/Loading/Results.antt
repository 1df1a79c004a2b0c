-- ===== src/Cluster/Loading/Results.antt =====
-- What a cluster holds that was loaded from a configuration.
use activerecord.Prelude.{
  ℕ, zero, suc, ◌+◌, List, [], ◌∷◌, ◌++◌, Option, none, some, false, map, ◌≡◌, ◌≢◌, refl, sym, ap,
  ap₂, subst, ◌∙◌, arith, All,
}
use activerecord.Go.{Result, ok, Bytes, bind_ok, ok_same}
use activerecord.Cluster.Shard.{Instance, InstanceConfig, ServerMode}
use activerecord.Cluster.Topology.{Cluster, new_cluster, append, shard_count}
use activerecord.Cluster.Topology.Instances.{shard_count-append, shard_count-new}
use activerecord.Cluster.Loading.{
  Config, MapGlobParam, LoadError, OptionCreator, or_default, nonempty, instance_of, load_instances,
  get_shard_info, load_shards, cluster_globs, load_all, max_shard, itoa, get_cluster_info,
}

pub record Loaded (mode : ServerMode) (timeout pool_size : ℕ) (create : OptionCreator)
    (inst : Instance) : Type 0 where
  pub made : create inst.config ≡ some (inst.params_id, inst.options)
  pub mode_lem : inst.config.mode ≡ mode
  pub timeout_lem : inst.config.timeout ≡ timeout
  pub pool_size_lem : inst.config.pool_size ≡ pool_size
  pub addr_lem : inst.config.addr ≢ []
  pub up : inst.offline ≡ false

nonempty_ok :
    (mode : ServerMode) (part addr : Bytes)
    → nonempty mode part ≡ ok addr
    → (addr ≡ part) × (addr ≢ [])
unfolding nonempty
nonempty_ok mode [] addr h = cc
nonempty_ok mode (c ∷ cs) addr h = (cc, λ e. cc)

instance_ok :
    (cfg : InstanceConfig) (o : Option (Bytes × ℕ)) (inst : Instance)
    → instance_of cfg o ≡ ok inst
    → (o ≡ some (inst.params_id, inst.options)) × (inst.config ≡ cfg) × (inst.offline ≡ false)
unfolding instance_of
instance_ok cfg none inst h = cc
instance_ok cfg (some (p, q)) inst h = ground arith

abbrev config_at : ServerMode → ℕ → ℕ → Bytes → InstanceConfig
config_at mode timeout pool_size addr = record {
  timeout = timeout;
  mode = mode;
  pool_size = pool_size;
  addr = addr;
}

abbrev AllLoaded : ServerMode → ℕ → ℕ → OptionCreator → List Bytes → List Instance → Type 0
AllLoaded mode timeout pool_size create parts is =
    (map (λ i. i.config.addr) is ≡ parts) × All (Loaded mode timeout pool_size create) is

loaded_cons :
    (mode : ServerMode) (timeout pool_size : ℕ) (create : OptionCreator) (part addr : Bytes)
    (parts : List Bytes) (more : List Instance) (inst : Instance)
    → nonempty mode part ≡ ok addr
    → instance_of
        (config_at mode timeout pool_size addr)
        (create (config_at mode timeout pool_size addr))
      ≡ ok inst
    → AllLoaded mode timeout pool_size create parts more
    → AllLoaded mode timeout pool_size create (part ∷ parts) (inst ∷ more)
loaded_cons mode timeout pool_size create part addr parts more inst ne made (addrs, all) =
    let (same, full) = nonempty_ok mode part addr ne in
    let (o, c, up) =
      instance_ok (config_at mode timeout pool_size addr)
        (create (config_at mode timeout pool_size addr)) inst made in
    (
      ap₂ (λ x xs. x ∷ xs) (ap (λ x. x.addr) c ∙ same) addrs,
      (
        record {
          made = ap create c ∙ o;
          mode_lem = ap (λ x. x.mode) c;
          timeout_lem = ap (λ x. x.timeout) c;
          pool_size_lem = ap (λ x. x.pool_size) c;
          addr_lem = λ e. full (sym (ap (λ x. x.addr) c) ∙ e);
          up = up;
        },
        all,
      ),
    )

-- Instances that load are online and have the addresses of the list, in its order, none of them
-- empty, and the mode, the timeout and the pool size that were given.
pub load_instances_lem :
    (mode : ServerMode) (timeout pool_size : ℕ) (create : OptionCreator) (parts : List Bytes)
    (is : List Instance)
    → load_instances mode timeout pool_size create parts ≡ ok is
    → (map (λ i. i.config.addr) is ≡ parts) × All (Loaded mode timeout pool_size create) is
unfolding load_instances
load_instances_lem mode timeout pool_size create [] is h =
    subst (AllLoaded mode timeout pool_size create []) (ok_same h) (refl, tt)
load_instances_lem mode timeout pool_size create (part ∷ parts) is h =
    let (addr, ne, h1) = bind_ok (nonempty mode part) _ h in
    let (inst, made, h2) =
      bind_ok
        (instance_of (config_at mode timeout pool_size addr)
          (create (config_at mode timeout pool_size addr)))
        _ h1 in
    let (more, rest, h3) = bind_ok (load_instances mode timeout pool_size create parts) _ h2 in
    subst (AllLoaded mode timeout pool_size create (part ∷ parts)) (ok_same h3) (
      loaded_cons mode timeout pool_size create part addr parts more inst ne made
        (load_instances_lem mode timeout pool_size create parts more rest))

-- The pool size that the caller passes makes no difference.
pub get_cluster_info_ignores_pool_size :
    (cfg : Config) (path : Bytes) (globs : MapGlobParam) (pool_size : ℕ) (create : OptionCreator)
    → get_cluster_info cfg path (record globs { pool_size = pool_size }) create
      ≡ get_cluster_info cfg path globs create
unfolding get_cluster_info cluster_globs
get_cluster_info_ignores_pool_size cfg path globs pool_size create = refl

ok_count :
    {c c' : Cluster}
    → ◌≡◌ {A = Result LoadError Cluster} (ok c) (ok c')
    → shard_count c' ≡ shard_count c
ok_count h = ap shard_count (sym (ok_same h))

load_shards_count :
    (cfg : Config) (path : Bytes) (globs : MapGlobParam) (create : OptionCreator) (n f : ℕ)
    (c c' : Cluster)
    → load_shards cfg path globs create n f c ≡ ok c'
    → shard_count c' ≡ shard_count c + n
unfolding load_shards
load_shards_count cfg path globs create zero f c c' h = ok_count h ∙ omega arith
load_shards_count cfg path globs create (suc n) f c c' h =
    let (shard, got, rest) =
      bind_ok (get_shard_info cfg (path ++ b'/' ∷ itoa f) globs create) _ h in
    load_shards_count cfg path globs create n (suc f) (append c shard) c' rest
    ∙ omega (arith, shard_count-append c shard)

load_all_count :
    (cfg : Config) (path : Bytes) (globs : MapGlobParam) (create : OptionCreator)
    (shards : Option ℕ) (c : Cluster)
    → load_all cfg path globs create shards ≡ ok c
    → shard_count c ≡ or_default shards 1
unfolding load_all
load_all_count cfg path globs create (some n) c h =
    load_shards_count cfg path globs create n 0 new_cluster c h ∙ rw shard_count-new (omega arith)
load_all_count cfg path globs create none c h =
    let (shard, got, rest) = bind_ok (get_shard_info cfg path globs create) _ h in
    ok_count rest ∙ shard_count-append new_cluster shard ∙ rw shard_count-new (omega arith)

-- A cluster that loads has as many shards as `max-shard` says, and one where that is missing.
pub get_cluster_info_count :
    (cfg : Config) (path : Bytes) (globs : MapGlobParam) (create : OptionCreator) (c : Cluster)
    → get_cluster_info cfg path globs create ≡ ok c
    → shard_count c ≡ or_default (max_shard cfg path) 1
unfolding get_cluster_info
get_cluster_info_count cfg path globs create c h =
    load_all_count cfg path (cluster_globs cfg path globs) create (max_shard cfg path) c h
