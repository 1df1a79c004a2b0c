-- ===== src/Cluster/Loading.antt =====
-- GetClusterInfoFromCfg and getShardInfoFromCfg of pkg/activerecord/cluster.go. The configuration is
-- an interface (ConfigInterface); a default for a missing entry is taken as in config.go. The
-- creator of options is an argument of the source too. Numbers of the configuration are not negative.
pub mod Results
use activerecord.Prelude.{
  ℕ, zero, suc, ◌+◌, ◌/◌, ◌%◌, List, [], ◌∷◌, ◌++◌, Option, none, some, Bool, true, false, ◌==◌,
  if◌then◌else◌,
}
use activerecord.Go.Strings.{split_on}
use activerecord.Go.{Result, ok, err, panic, Bytes, ◌>>=◌}
use activerecord.Cluster.Shard.{
  Instance, InstanceConfig, ServerMode, mode_master, mode_replica, Shard,
}
use activerecord.Cluster.Topology.{Cluster, new_cluster, append}

-- GetIntIfExists, GetDurationIfExists, GetStringIfExists and GetLastUpdateTime.
pub record Config : Type 0 where
  pub int_of : Bytes → Option ℕ
  pub duration_of : Bytes → Option ℕ
  pub string_of : Bytes → Option Bytes
  pub last_update : ℕ

pub record MapGlobParam : Type 0 where
  pub timeout : ℕ
  pub pool_size : ℕ

pub data LoadError : Type 0 where
  no_master : Bytes → LoadError
  empty_addr : ServerMode → LoadError
  no_option : LoadError

-- `opt.GetConnectionID()` and the options themselves; none is an error.
abbrev pub OptionCreator : Type 0
OptionCreator = InstanceConfig → Option (Bytes × ℕ)

abbrev pub or_default : Option ℕ → ℕ → ℕ
or_default none d = d
or_default (some v) d = v

-- `strings.Split(s, ",")`
unfoldable pub split_comma : Bytes → List Bytes
unfolding split_on
split_comma = split_on b','

-- `strconv.Itoa`, on fuel: n has at most n + 1 digits.
digits : ℕ → ℕ → Bytes → Bytes
digits zero n out = out
digits (suc fuel) n out =
    let rest = digits fuel (n / 10) ((b'0' + n % 10) ∷ out) in
    if n / 10 == 0 then (b'0' + n % 10) ∷ out else rest

pub itoa : ℕ → Bytes
itoa n = digits (suc n) n []

unfoldable pub instance_of : InstanceConfig → Option (Bytes × ℕ) → Result LoadError Instance
instance_of cfg none = err no_option
instance_of cfg (some (params_id, options)) =
    ok (record { params_id = params_id; config = cfg; options = options; offline = false })

unfoldable pub nonempty : ServerMode → Bytes → Result LoadError Bytes
nonempty mode [] = err (empty_addr mode)
nonempty mode (c ∷ cs) = ok (c ∷ cs)

-- The loop over the masters and, with the other mode, the one over the replicas.
unfoldable pub load_instances :
    ServerMode → ℕ → ℕ → OptionCreator → List Bytes → Result LoadError (List Instance)
load_instances mode timeout pool_size create [] = ok []
load_instances mode timeout pool_size create (part ∷ parts) = do
  addr ← nonempty mode part
  inst ←
      instance_of (record { timeout = timeout; mode = mode; pool_size = pool_size; addr = addr })
        (create (record { timeout = timeout; mode = mode; pool_size = pool_size; addr = addr }))
  more ← load_instances mode timeout pool_size create parts
  ok (inst ∷ more)

-- `path+"/master"`, and the path itself where that is missing.
unfoldable pub master_entry : Config → Bytes → Result LoadError Bytes
master_entry cfg path =
    elim (cfg.string_of (path ++ b'/' ∷ b'm' ∷ b'a' ∷ b's' ∷ b't' ∷ b'e' ∷ b'r' ∷ [])) [
      | some m ↦ ok m
      | none ↦ elim (cfg.string_of path) [ some m ↦ ok m | none ↦ err (no_master path) ]
    ]

unfoldable pub load_masters : ℕ → ℕ → OptionCreator → Bytes → Result LoadError (List Instance)
load_masters timeout pool_size create [] = ok []
load_masters timeout pool_size create (c ∷ cs) =
    load_instances mode_master timeout pool_size create (split_comma (c ∷ cs))

unfoldable pub load_replicas :
    ℕ → ℕ → OptionCreator → Option Bytes → Result LoadError (List Instance)
load_replicas timeout pool_size create none = ok []
load_replicas timeout pool_size create (some r) =
    load_instances mode_replica timeout pool_size create (split_comma r)

unfoldable pub get_shard_info :
    Config → Bytes → MapGlobParam → OptionCreator → Result LoadError Shard
get_shard_info cfg path globs create =
    let timeout =
      or_default
        (cfg.duration_of (path ++ b'/' ∷ b'T' ∷ b'i' ∷ b'm' ∷ b'e' ∷ b'o' ∷ b'u' ∷ b't' ∷ []))
        globs.timeout in
    let pool_size =
      or_default
        (cfg.int_of (path ++ b'/' ∷ b'P' ∷ b'o' ∷ b'o' ∷ b'l' ∷ b'S' ∷ b'i' ∷ b'z' ∷ b'e' ∷ []))
        globs.pool_size in
    do
      master ← master_entry cfg path
      masters ← load_masters timeout pool_size create master
      replicas ←
          load_replicas timeout pool_size create
            (cfg.string_of (path ++ b'/' ∷ b'r' ∷ b'e' ∷ b'p' ∷ b'l' ∷ b'i' ∷ b'c' ∷ b'a' ∷ []))
      ok (record { masters = masters; replicas = replicas; cur_master = 0; cur_replica = 0 })

-- The loop over the shards `f`, `f + 1`, … of which n are left.
pub load_shards :
    Config → Bytes → MapGlobParam → OptionCreator → ℕ → ℕ → Cluster → Result LoadError Cluster
load_shards cfg path globs create zero f cluster = ok cluster
load_shards cfg path globs create (suc n) f cluster = do
  shard ← get_shard_info cfg (path ++ b'/' ∷ itoa f) globs create
  load_shards cfg path globs create n (suc f) (append cluster shard)

-- The pool size that the caller passes in `globs` is overwritten in both cases.
unfoldable pub cluster_globs : Config → Bytes → MapGlobParam → MapGlobParam
cluster_globs cfg path globs = record {
  timeout =
      or_default
        (cfg.duration_of (path ++ b'/' ∷ b'T' ∷ b'i' ∷ b'm' ∷ b'e' ∷ b'o' ∷ b'u' ∷ b't' ∷ []))
        globs.timeout;
  pool_size =
      or_default
        (cfg.int_of (path ++ b'/' ∷ b'P' ∷ b'o' ∷ b'o' ∷ b'l' ∷ b'S' ∷ b'i' ∷ b'z' ∷ b'e' ∷ [])) 1;
}

unfoldable pub load_all :
    Config → Bytes → MapGlobParam → OptionCreator → Option ℕ → Result LoadError Cluster
load_all cfg path globs create (some shard_cnt) =
    load_shards cfg path globs create shard_cnt 0 new_cluster
load_all cfg path globs create none = do
  shard ← get_shard_info cfg path globs create
  ok (append new_cluster shard)

abbrev pub max_shard : Config → Bytes → Option ℕ
max_shard cfg path =
    cfg.int_of (path ++ b'/' ∷ b'm' ∷ b'a' ∷ b'x' ∷ b'-' ∷ b's' ∷ b'h' ∷ b'a' ∷ b'r' ∷ b'd' ∷ [])

unfoldable pub get_cluster_info :
    Config → Bytes → MapGlobParam → OptionCreator → Result LoadError Cluster
get_cluster_info cfg path globs create =
    load_all cfg path (cluster_globs cfg path globs) create (max_shard cfg path)
