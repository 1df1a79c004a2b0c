-- ===== src/Cluster/Connections.antt =====
-- connectionPool of pkg/activerecord/connection.go: the connections by the id of their parameters. A
-- connection is a number that the connector gives it; the connector's outcome is an argument, none
-- being its error. Each method holds the lock, and is one step.
use activerecord.Prelude.{
  ℕ, List, [], ◌∷◌, Option, none, some, if◌then◌else◌, ◌≡◌, refl, ap, arith, Option-cases, inl, inr,
  subst,
}
use activerecord.Go.Strings.{same_bytes, same_bytes_refl}
use activerecord.Go.{Result, ok, err, Bytes}

pub data PoolError : Type 0 where
  duplicate_conn : Bytes → PoolError
  connect : PoolError

abbrev pub Container : Type 0
Container = List (Bytes × ℕ)

unfoldable pub get_connection : Container → Bytes → Option ℕ
get_connection [] id = none
get_connection ((i, c) ∷ m) id = if same_bytes i id then some c else get_connection m id

unfoldable pub connected : Container → Bytes → Option ℕ → Container × Result PoolError ℕ
connected m id none = (m, err connect)
connected m id (some c) = ((id, c) ∷ m, ok c)

unfoldable pub add : Container → Bytes → Option ℕ → Container × Result PoolError ℕ
add m id connector = elim (get_connection m id) [
  | some c ↦ (m, err (duplicate_conn id))
  | none ↦ connected m id connector
]

unfoldable pub get_or_add : Container → Bytes → Option ℕ → Container × Result PoolError ℕ
get_or_add m id connector = elim (get_connection m id) [
  | some c ↦ (m, ok c)
  | none ↦ add m id connector
]

connected_found :
    (m m' : Container) (id : Bytes) (connector : Option ℕ) (c : ℕ)
    → connected m id connector ≡ (m', ok c)
    → get_connection m' id ≡ some c
unfolding connected get_connection
connected_found m m' id none c h = cc
connected_found m m' id (some d) c h =
    subst (λ x. get_connection x id ≡ some c) (ap (λ p. p.0) h) (rw (same_bytes_refl id) cc)

get_or_add_found :
    (m m' : Container) (id : Bytes) (connector : Option ℕ) (c : ℕ)
    → get_or_add m id connector ≡ (m', ok c)
    → get_connection m' id ≡ some c
unfolding get_or_add add
get_or_add_found m m' id connector c h = elim (Option-cases (get_connection m id)) [
  | inl e ↦
      let h' = rw (e, get_or_add) at h in connected_found m m' id connector c (rw (e, add) at h')
  | inr (d, e) ↦ ground (arith, rw (e, get_or_add) at h, e)
]

-- A connection that a call returned is the one that each later call for its id returns, whatever the
-- connector would give, and without a change of the pool.
pub get_or_add-get_or_add :
    (m m' : Container) (id : Bytes) (first second : Option ℕ) (c : ℕ)
    → get_or_add m id first ≡ (m', ok c)
    → get_or_add m' id second ≡ (m', ok c)
unfolding get_or_add
get_or_add-get_or_add m m' id first second c h = rw (get_or_add_found m m' id first c h, get_or_add)

connected_error :
    (m : Container) (id : Bytes) (e : PoolError) (m' : Container) (connector : Option ℕ)
    → connected m id connector ≡ (m', err e)
    → (m' ≡ m) × (e ≡ connect) × (connector ≡ none)
unfolding connected
connected_error m id e m' none h = (cc, cc, refl)
connected_error m id e m' (some c) h = cc

-- A call that fails leaves the pool as it was, and it fails only when the id is new and the
-- connector fails.
pub get_or_add_error :
    (m : Container) (id : Bytes) (e : PoolError) (m' : Container) (connector : Option ℕ)
    → get_or_add m id connector ≡ (m', err e)
    → (m' ≡ m) × (e ≡ connect) × (get_connection m id ≡ none) × (connector ≡ none)
unfolding get_or_add add
get_or_add_error m id e m' connector h = elim (Option-cases (get_connection m id)) [
  | inl f ↦
      let h' = rw (f, get_or_add) at h in
      let (same, why, failed) = connected_error m id e m' connector (rw (f, add) at h') in
      (same, why, f, failed)
  | inr (d, f) ↦ cc (rw (f, get_or_add) at h)
]
