-- ===== src/Octopus/Options/Identity.antt =====
-- What is written to the hash of a connection determines the connection, but for its mode.
use activerecord.Prelude.{
  ℕ, List, [], ◌∷◌, ◌++◌, take, drop, append_assoc, some, false, ◌≡◌, ◌≢◌, refl, sym, ap, ap₂, ◌∙◌,
  All, arith,
}
use activerecord.Go.{ok, Bytes, ◌>>=◌}
use activerecord.Iproto.Pack.{IsU64, pack_uint64, little_endian}
use activerecord.Octopus.Options.{
  PoolConfig, ConnectionOptions, ConnectionOption, with_timeout, with_intervals, with_pool_size,
  with_pool_logger, default_config, int64_bytes, update_hash, configured, hashed, apply_option,
  apply_all, new_options,
}

-- An option that is not a logger, with 64 bits in each number.
abbrev pub IsPlain : ConnectionOption → Type 0
IsPlain (with_timeout request connection) = IsU64 request × IsU64 connection
IsPlain (with_intervals redial max ping) = IsU64 redial × IsU64 max × IsU64 ping
IsPlain (with_pool_size size) = IsU64 size
IsPlain (with_pool_logger l d) = ⊥

little_endian-int64_bytes : (v : ℕ) → IsU64 v → little_endian (int64_bytes v) ≡ v
unfolding little_endian pack_uint64
little_endian-int64_bytes v h = omega (arith, h)

int64_bytes_inj :
    (v w : ℕ) (r t : Bytes)
    → IsU64 v
    → IsU64 w
    → (int64_bytes v ++ r) ≡ (int64_bytes w ++ t)
    → (v ≡ w) × (r ≡ t)
unfolding pack_uint64
int64_bytes_inj v w r t h k e =
    let a : take 8 (int64_bytes v ++ r) ≡ take 8 (int64_bytes w ++ t) = ap (take 8) e in
    let b : little_endian (int64_bytes v) ≡ little_endian (int64_bytes w) = ap little_endian a in
    (sym (little_endian-int64_bytes v h) ∙ (b ∙ little_endian-int64_bytes w k), ap (drop 8) e)

-- Everything that is written, with the server at the end.
written_of : List ConnectionOption → Bytes → Bytes
written_of [] s = b'S' ∷ s
written_of (with_timeout r c ∷ opts) s =
    b'T' ∷ (int64_bytes r ++ (int64_bytes c ++ written_of opts s))
written_of (with_intervals r m p ∷ opts) s =
    b'I' ∷ (int64_bytes r ++ (int64_bytes m ++ (int64_bytes p ++ written_of opts s)))
written_of (with_pool_size n ∷ opts) s = b's' ∷ (int64_bytes n ++ written_of opts s)
written_of (with_pool_logger l d ∷ opts) s = written_of opts s

abbrev first : Bytes → ℕ
first [] = 0
first (c ∷ cs) = c

written_of_inj :
    (opts others : List ConnectionOption) (s t : Bytes)
    → All IsPlain opts
    → All IsPlain others
    → written_of opts s ≡ written_of others t
    → (opts ≡ others) × (s ≡ t)
unfolding written_of
written_of_inj [] [] s t h k e = (refl, ap (drop 1) e)
written_of_inj [] (with_timeout r c ∷ others) s t h k e =
    absurd (let x = ap first e in omega (arith, x))
written_of_inj [] (with_intervals r m p ∷ others) s t h k e =
    absurd (let x = ap first e in omega (arith, x))
written_of_inj [] (with_pool_size n ∷ others) s t h k e =
    absurd (let x = ap first e in omega (arith, x))
written_of_inj [] (with_pool_logger l d ∷ others) s t h k e = absurd (k.0)
written_of_inj (with_pool_logger l d ∷ opts) others s t h k e = absurd (h.0)
written_of_inj (with_timeout r c ∷ opts) [] s t h k e =
    absurd (let x = ap first e in omega (arith, x))
written_of_inj (with_timeout r c ∷ opts) (with_timeout r' c' ∷ others) s t h k e =
    let (a, x) = int64_bytes_inj r r' _ _ (h.0.0) (k.0.0) (ap (drop 1) e) in
    let (b, y) = int64_bytes_inj c c' _ _ (h.0.1) (k.0.1) x in
    let (z, u) = written_of_inj opts others s t h.1 k.1 y in
    (ap₂ (λ o os. o ∷ os) (ap₂ with_timeout a b) z, u)
written_of_inj (with_timeout r c ∷ opts) (with_intervals r' m p ∷ others) s t h k e =
    absurd (let x = ap first e in omega (arith, x))
written_of_inj (with_timeout r c ∷ opts) (with_pool_size n ∷ others) s t h k e =
    absurd (let x = ap first e in omega (arith, x))
written_of_inj (with_timeout r c ∷ opts) (with_pool_logger l d ∷ others) s t h k e = absurd (k.0)
written_of_inj (with_intervals r m p ∷ opts) [] s t h k e =
    absurd (let x = ap first e in omega (arith, x))
written_of_inj (with_intervals r m p ∷ opts) (with_timeout r' c' ∷ others) s t h k e =
    absurd (let x = ap first e in omega (arith, x))
written_of_inj (with_intervals r m p ∷ opts) (with_intervals r' m' p' ∷ others) s t h k e =
    let (a, x) = int64_bytes_inj r r' _ _ (h.0.0) (k.0.0) (ap (drop 1) e) in
    let (b, y) = int64_bytes_inj m m' _ _ (h.0.1) (k.0.1) x in
    let (c, w) = int64_bytes_inj p p' _ _ (h.0.2) (k.0.2) y in
    let (z, u) = written_of_inj opts others s t h.1 k.1 w in (ap₂ (λ o os. o ∷ os) (cc) z, u)
written_of_inj (with_intervals r m p ∷ opts) (with_pool_size n ∷ others) s t h k e =
    absurd (let x = ap first e in omega (arith, x))
written_of_inj (with_intervals r m p ∷ opts) (with_pool_logger l d ∷ others) s t h k e =
    absurd (k.0)
written_of_inj (with_pool_size n ∷ opts) [] s t h k e =
    absurd (let x = ap first e in omega (arith, x))
written_of_inj (with_pool_size n ∷ opts) (with_timeout r' c' ∷ others) s t h k e =
    absurd (let x = ap first e in omega (arith, x))
written_of_inj (with_pool_size n ∷ opts) (with_intervals r' m' p' ∷ others) s t h k e =
    absurd (let x = ap first e in omega (arith, x))
written_of_inj (with_pool_size n ∷ opts) (with_pool_size n' ∷ others) s t h k e =
    let (a, x) = int64_bytes_inj n n' _ _ (h.0) (k.0) (ap (drop 1) e) in
    let (z, u) = written_of_inj opts others s t h.1 k.1 x in
    (ap₂ (λ o os. o ∷ os) (ap with_pool_size a) z, u)
written_of_inj (with_pool_size n ∷ opts) (with_pool_logger l d ∷ others) s t h k e = absurd (k.0)

config_of : List ConnectionOption → PoolConfig → PoolConfig
config_of [] c = c
config_of (opt ∷ opts) c = config_of opts (configured opt c)

apply_option-update_hash :
    (o : ConnectionOptions) (opt : ConnectionOption) (d : Bytes)
    → hashed opt ≡ some d
    → o.calculated ≡ false
    → apply_option o opt
      ≡ ok (record o { pool_cfg = configured opt o.pool_cfg; written = o.written ++ d })
unfolding apply_option update_hash
apply_option-update_hash o opt d h c = rw h (rw c refl)

one_more :
    (opt : ConnectionOption) (opts : List ConnectionOption) (o : ConnectionOptions) (s d w : Bytes)
    → hashed opt ≡ some d
    → o.calculated ≡ false
    → ((p : ConnectionOptions)
        → p.calculated ≡ false
        → (apply_all p opts >>= (λ u. update_hash u (some (b'S' ∷ s))))
          ≡ ok (record p { pool_cfg = config_of opts p.pool_cfg; written = p.written ++ w }))
    → (apply_all o (opt ∷ opts) >>= (λ u. update_hash u (some (b'S' ∷ s))))
      ≡ ok (record o {
        pool_cfg = config_of opts (configured opt o.pool_cfg);
        written = o.written ++ (d ++ w);
      })
unfolding apply_all
one_more opt opts o s d w h c ih =
    let o' : ConnectionOptions = record o {
      pool_cfg = configured opt o.pool_cfg;
      written = o.written ++ d;
    } in
    rw (apply_option-update_hash o opt d h c) (rw (ih o' c) (rw (append_assoc o.written d w) refl))

apply_then_update_hash :
    (opts : List ConnectionOption) (o : ConnectionOptions) (s : Bytes)
    → All IsPlain opts
    → o.calculated ≡ false
    → (apply_all o opts >>= (λ u. update_hash u (some (b'S' ∷ s))))
      ≡ ok (record o {
        pool_cfg = config_of opts o.pool_cfg;
        written = o.written ++ written_of opts s;
      })
unfolding apply_all hashed update_hash written_of config_of pack_uint64
apply_then_update_hash [] o s h c = rw c refl
apply_then_update_hash (with_timeout r q ∷ opts) o s h c =
    one_more _ opts o s _ (written_of opts s) refl c (λ p e. apply_then_update_hash opts p s h.1 e)
apply_then_update_hash (with_intervals r m q ∷ opts) o s h c =
    one_more _ opts o s _ (written_of opts s) refl c (λ p e. apply_then_update_hash opts p s h.1 e)
apply_then_update_hash (with_pool_size n ∷ opts) o s h c =
    one_more _ opts o s _ (written_of opts s) refl c (λ p e. apply_then_update_hash opts p s h.1 e)
apply_then_update_hash (with_pool_logger l d ∷ opts) o s h c = absurd (h.0)

-- New options whose options are timeouts, intervals and sizes of 64 bits are built whenever the server
-- is not empty, and two of them that wrote the same bytes to the hash of the connection have the same
-- server and the same configuration of the pool.
pub new_options_inj :
    (a b : Bytes) (m n : ℕ) (opts others : List ConnectionOption)
    → a ≢ []
    → b ≢ []
    → All IsPlain opts
    → All IsPlain others
    → (o : ConnectionOptions) × (p : ConnectionOptions) × (new_options a m opts ≡ ok o)
      × (new_options b n others ≡ ok p)
      × (o.written ≡ p.written → (o.server ≡ p.server) × (o.pool_cfg ≡ p.pool_cfg))
unfolding new_options
new_options_inj [] b m n opts others x y h k = absurd (x refl)
new_options_inj (c ∷ cs) [] m n opts others x y h k = absurd (y refl)
new_options_inj (c ∷ cs) (d ∷ ds) m n opts others x y h k = (
  _,
  _,
  apply_then_update_hash opts _ (c ∷ cs) h refl,
  apply_then_update_hash others _ (d ∷ ds) k refl,
  λ e.
      let (u, v) = written_of_inj opts others _ _ h k e in
      (v, ap (λ os. config_of os default_config) u),
)
