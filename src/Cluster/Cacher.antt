-- ===== src/Cluster/Cacher.antt =====
-- DefaultConfigCacher of pkg/activerecord/cluster.go. A clock is a number; `sum` and `same` are the
-- checksum of a cluster's hash and the test on it (hash/crc32, bytes.Equal).
pub mod Freshness
use activerecord.Prelude.{
  ℕ, List, [], ◌∷◌, Option, none, some, Bool, true, false, not, ◌||◌, ltb, ◌==◌, if◌then◌else◌, ◌≡◌,
  refl, arith,
}
use activerecord.Go.Strings.{same_bytes}
use activerecord.Go.{Result, ok, err, panic, Bytes}
use activerecord.Cluster.Topology.{Cluster, equal}
use activerecord.Cluster.Loading.{Config, MapGlobParam, OptionCreator, LoadError, get_cluster_info}

unfoldable pub find : Bytes → List (Bytes × Cluster) → Option Cluster
find path [] = none
find path ((p, c) ∷ m) = if same_bytes p path then some c else find path m

pub record Cacher : Type 0 where
  pub container : List (Bytes × Cluster)
  pub update_time : ℕ

pub new_cacher : ℕ → Cacher
new_cacher now = record { container = []; update_time = now }

-- `!ex`
is_missing : Option Cluster → Bool
is_missing none = true
is_missing (some c) = false

module _ (sum : Bytes → ℕ) (same : ℕ → ℕ → Bool) where
  refresh :
      Cacher
      → Bytes
      → ℕ
      → Option Cluster
      → Result LoadError Cluster
      → Cacher × Result LoadError (Option Cluster)
  refresh s path now conf (err e) = (s, err e)
  refresh s path now conf panic = (s, panic)
  refresh s path now conf (ok new_conf) =
      if equal sum same (some new_conf) conf then (s, ok conf) else (
        record { container = (path, new_conf) ∷ s.container; update_time = now },
        ok (some new_conf),
      )

  -- `now` is what time.Now() returns if it is called. The result is a cluster or nil.
  pub get :
      Config
      → MapGlobParam
      → OptionCreator
      → Cacher
      → Bytes
      → ℕ
      → Cacher × Result LoadError (Option Cluster)
  get cfg globs create s path now =
      let conf = find path s.container in
      if is_missing conf || ltb s.update_time cfg.last_update
      then refresh s path now conf (get_cluster_info cfg path globs create)
      else (s, ok conf)
