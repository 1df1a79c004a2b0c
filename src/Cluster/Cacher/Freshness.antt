-- ===== src/Cluster/Cacher/Freshness.antt =====
-- When the cacher reads the configuration again, and when it gives back what it holds.
use activerecord.Prelude.{ℕ, ◌≤◌, ◌∷◌, none, some, Bool, false, ◌≡◌, refl, ◌∙◌, arith}
use activerecord.Go.Strings.{same_bytes, same_bytes_refl}
use activerecord.Go.{ok, err, Bytes}
use activerecord.Cluster.Topology.{Cluster, equal}
use activerecord.Cluster.Loading.{Config, MapGlobParam, OptionCreator, LoadError, get_cluster_info}
use activerecord.Cluster.Cacher.{Cacher, find, is_missing, refresh, get}

module _ (sum : Bytes → ℕ) (same : ℕ → ℕ → Bool) where
  -- A cluster that was stored after the configuration last changed is returned as it is, and the
  -- configuration is not read.
  pub get_fresh :
      (cfg : Config) (globs : MapGlobParam) (create : OptionCreator) (s : Cacher) (path : Bytes)
      (now : ℕ) (c : Cluster)
      → find path s.container ≡ some c
      → cfg.last_update ≤ s.update_time
      → get sum same cfg globs create s path now ≡ (s, ok (some c))
  unfolding get is_missing
  get_fresh cfg globs create s path now c here fresh = rw (here, get) (ground arith)

  -- A load that fails returns its error and leaves the cacher as it was.
  pub get_error :
      (cfg : Config) (globs : MapGlobParam) (create : OptionCreator) (s : Cacher) (path : Bytes)
      (now : ℕ) (e : LoadError)
      → find path s.container ≡ none
      → get_cluster_info cfg path globs create ≡ err e
      → get sum same cfg globs create s path now ≡ (s, err e)
  unfolding get is_missing refresh
  get_error cfg globs create s path now e absent failed = rw (absent, get) (rw failed refl)

  -- A path that is new is loaded, and what was loaded is stored for it, with the time of the load.
  pub get_new :
      (cfg : Config) (globs : MapGlobParam) (create : OptionCreator) (s : Cacher) (path : Bytes)
      (now : ℕ) (c : Cluster)
      → find path s.container ≡ none
      → get_cluster_info cfg path globs create ≡ ok c
      → (s' : Cacher) × (get sum same cfg globs create s path now ≡ (s', ok (some c)))
        × (find path s'.container ≡ some c)
        × (s'.update_time ≡ now)
        × ((other : Bytes)
            → same_bytes path other ≡ false
            → find other s'.container ≡ find other s.container)
  unfolding get is_missing refresh equal find
  get_new cfg globs create s path now c absent loaded = (
    record { container = (path, c) ∷ s.container; update_time = now },
    rw (absent, get) (rw loaded refl),
    rw (same_bytes_refl path, find) refl,
    refl,
    λ other differ. rw (differ, find) refl,
  )

  -- The time of the last load is one for all paths: when a path that is stored, however long ago, is
  -- asked for after another, new path was loaded at or after the last change of the configuration, it
  -- is not loaded again, and what it held is returned.
  pub get_stale :
      (cfg : Config) (globs : MapGlobParam) (create : OptionCreator) (s : Cacher)
      (path other : Bytes) (now later : ℕ) (old c : Cluster)
      → find path s.container ≡ some old
      → find other s.container ≡ none
      → same_bytes other path ≡ false
      → get_cluster_info cfg other globs create ≡ ok c
      → cfg.last_update ≤ now
      → (s' : Cacher) × (get sum same cfg globs create s other now ≡ (s', ok (some c)))
        × (get sum same cfg globs create s' path later ≡ (s', ok (some old)))
  get_stale cfg globs create s path other now later old c here absent differ loaded after =
      let (s', run, stored, time, rest) = get_new cfg globs create s other now c absent loaded in
      (
        s',
        run,
        get_fresh cfg globs create s' path later old (rest path differ ∙ here) (rw time after),
      )
