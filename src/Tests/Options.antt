-- ===== src/Tests/Options.antt =====
-- The options of connections on concrete inputs.
use activerecord.Prelude.{[], ◌∷◌, ◌≡◌, ◌≢◌, refl, arith, some, false, ap, length}
use activerecord.Go.{ok, err, Bytes}
use activerecord.Iproto.Pack.{pack_uint64}
use activerecord.Octopus.Options.{
  calculated_before, ConnectionOptions, with_timeout, with_intervals, with_pool_size,
  default_config, update_hash, configured, hashed, apply_option, apply_all, new_options,
  get_connection_id,
}
use activerecord.Octopus.Options.Identity.{new_options_inj}

abbrev host : Bytes
host = b'h' ∷ []

abbrev with_size : ConnectionOptions
with_size = record {
  server = host;
  mode = 0;
  pool_cfg = record default_config { size = 3 };
  written = b's' ∷ 3 ∷ 0 ∷ 0 ∷ 0 ∷ 0 ∷ 0 ∷ 0 ∷ 0 ∷ b'S' ∷ b'h' ∷ [];
  calculated = false;
}

size_written : new_options host 0 (with_pool_size 3 ∷ []) ≡ ok with_size
unfolding new_options apply_all apply_option configured hashed update_hash pack_uint64
size_written = refl

hash_frozen :
    update_hash ((get_connection_id (λ bs. bs) with_size).0) (some []) ≡ err calculated_before
unfolding update_hash get_connection_id
hash_frozen = refl

host_named : host ≢ []
host_named = λ e. let x = ap length e in omega (arith, x)

new_options_inj_example :
    (o : ConnectionOptions) × (p : ConnectionOptions) × (new_options host 0 (with_pool_size 3 ∷ [])
      ≡ ok o)
    × (new_options host 1 (with_timeout 7 8 ∷ with_intervals 1 2 3 ∷ []) ≡ ok p)
    × (o.written ≡ p.written → (o.server ≡ p.server) × (o.pool_cfg ≡ p.pool_cfg))
new_options_inj_example =
    new_options_inj host host 0 1 (with_pool_size 3 ∷ [])
      (with_timeout 7 8 ∷ with_intervals 1 2 3 ∷ []) host_named host_named (omega arith, tt)
      ((omega arith, omega arith), ((omega arith, omega arith, omega arith), tt))
