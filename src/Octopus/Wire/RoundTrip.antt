-- ===== src/Octopus/Wire/RoundTrip.antt =====
-- What was packed is read back: fields, tuples, keys and lists of tuples.
use activerecord.Prelude.{
  ℕ, ◌%◌, ◌^◌, ◌≤◌, List, [], ◌++◌, length, ◌≡◌, ◌∙◌, arith, append_assoc, All, length-append,
  flat_map, foldl, foldl-flat_map, flat_map-All, length-flat_map-ge,
}
use activerecord.Go.{Bytes}
use activerecord.Go.Reader.{Read, ◌>>=◌, read_times}
use activerecord.Go.Reader.Decodes.{Decodes, >>=-Decodes, read_times-Decodes}
use activerecord.Iproto.Pack.{IsU32, mode_default, mode_ber, pack_uint32, pack_bytes, unpack_uint32}
use activerecord.Iproto.Pack.Strings.{
  pack_uint32-append, pack_bytes-append, unpack_uint32-pack, unpack_bytes-pack,
  length-pack_bytes-ber, length-pack_uint32,
}
use activerecord.Octopus.Wire.{
  Tuple, pack_field, unpack_field, pack_key, unpack_key, pack_tuple, unpack_tuple, pack_tuples,
  unpack_tuples, pack_field_nums, unpack_field_nums,
}

-- The bytes of each piece, written into an empty slice.
abbrev pub u32_bytes : ℕ → Bytes
u32_bytes v = pack_uint32 [] v mode_default

abbrev pub field_bytes : Bytes → Bytes
field_bytes f = pack_bytes [] f mode_ber

unfoldable pub tuple_bytes : Tuple → Bytes
tuple_bytes t = u32_bytes (length t % 2 ^ 32) ++ flat_map field_bytes t

unfoldable pub tuples_bytes : List Tuple → Bytes
tuples_bytes ts = u32_bytes (length ts % 2 ^ 32) ++ flat_map tuple_bytes ts

-- Each packer appends: it keeps what `w` holds, and what it adds does not depend on it.
pub pack_field-append : (w f : Bytes) → pack_field w f ≡ w ++ field_bytes f
unfolding pack_field
pack_field-append w f = pack_bytes-append w f mode_ber

pub counted :
    {A : Type 0} (f : Bytes → A → Bytes) (enc : A → Bytes)
    → ((w : Bytes) (x : A) → f w x ≡ w ++ enc x)
    → (w : Bytes) (n : ℕ) (xs : List A)
    → foldl f (pack_uint32 w n mode_default) xs ≡ w ++ (u32_bytes n ++ flat_map enc xs)
counted f enc h w n xs =
    foldl-flat_map f enc h (pack_uint32 w n mode_default) xs
    ∙ rw (pack_uint32-append w n mode_default) (append_assoc w (u32_bytes n) (flat_map enc xs))

pub pack_tuple-append : (w : Bytes) (t : Tuple) → pack_tuple w t ≡ w ++ tuple_bytes t
unfolding pack_tuple pack_field_nums tuple_bytes
pack_tuple-append w t = counted pack_field field_bytes pack_field-append w (length t % 2 ^ 32) t

pub pack_key-append : (w : Bytes) (t : Tuple) → pack_key w t ≡ w ++ tuple_bytes t
unfolding pack_key tuple_bytes
pack_key-append w t = counted pack_field field_bytes pack_field-append w (length t % 2 ^ 32) t

pub pack_tuples-append : (w : Bytes) (ts : List Tuple) → pack_tuples w ts ≡ w ++ tuples_bytes ts
unfolding pack_tuples tuples_bytes
pack_tuples-append w ts = counted pack_tuple tuple_bytes pack_tuple-append w (length ts % 2 ^ 32) ts

-- Everything inside a message that is shorter than 2 ^ 32 fits its counters.
module _ (k : ℕ) (small : IsU32 k) where
  pub field-Decodes :
      (f : Bytes) → length (field_bytes f) ≤ k → Decodes unpack_field (field_bytes f) f k
  unfolding unpack_field
  field-Decodes f b =
      let long = length-pack_bytes-ber f in
      unpack_bytes-pack f k mode_ber (omega (arith, long)) (omega (arith, long))

  -- A count and that many elements.
  pub counted-Decodes :
      {A : Type 0} (m : Read A) (enc : A → Bytes)
      → ((x : A) → 1 ≤ length (enc x))
      → (xs : List A) → All (λ x. Decodes m (enc x) x k) xs
      → length (u32_bytes (length xs % 2 ^ 32) ++ flat_map enc xs) ≤ k
      → Decodes
          (unpack_uint32 mode_default >>= read_times m)
          (u32_bytes (length xs % 2 ^ 32) ++ flat_map enc xs)
          xs
          k
  counted-Decodes m enc pos xs each b =
      let total = length-append (u32_bytes (length xs % 2 ^ 32)) (flat_map enc xs) in
      let many = length-flat_map-ge enc pos xs in
      let fits : length xs % 2 ^ 32 ≡ length xs = omega (arith, total, many) in
      rw fits (
        >>=-Decodes (read_times m)
          (unpack_uint32-pack (length xs) k mode_default (omega (arith, total, many)))
          (read_times-Decodes m enc k xs each))

  each_of :
      {A : Type 0} (m : Read A) (enc : A → Bytes) (n : ℕ) (xs : List A)
      → ((x : A) → length (enc x) ≤ k → Decodes m (enc x) x k)
      → length (u32_bytes n ++ flat_map enc xs) ≤ k
      → All (λ x. Decodes m (enc x) x k) xs
  each_of m enc n xs one b =
      flat_map-All enc (λ x. Decodes m (enc x) x k) k one xs
        (omega (arith, length-append (u32_bytes n) (flat_map enc xs)))

  pub field_pos : (f : Bytes) → 1 ≤ length (field_bytes f)
  field_pos f = omega (arith, length-pack_bytes-ber f)

  pub tuple-Decodes :
      (t : Tuple) → length (tuple_bytes t) ≤ k → Decodes unpack_tuple (tuple_bytes t) t k
  unfolding unpack_tuple unpack_field_nums tuple_bytes
  tuple-Decodes t b =
      counted-Decodes unpack_field field_bytes field_pos t
        (each_of unpack_field field_bytes _ t field-Decodes b) b

  pub key-Decodes :
      (t : Tuple) → length (tuple_bytes t) ≤ k → Decodes unpack_key (tuple_bytes t) t k
  unfolding unpack_key tuple_bytes
  key-Decodes t b =
      counted-Decodes unpack_field field_bytes field_pos t
        (each_of unpack_field field_bytes _ t field-Decodes b) b

  tuple_pos : (t : Tuple) → 1 ≤ length (tuple_bytes t)
  unfolding tuple_bytes
  tuple_pos t = omega (
    arith,
    length-append (u32_bytes (length t % 2 ^ 32)) (flat_map field_bytes t),
    length-pack_uint32 (length t % 2 ^ 32),
  )

  pub tuples-Decodes :
      (ts : List Tuple)
      → length (tuples_bytes ts) ≤ k
      → Decodes unpack_tuples (tuples_bytes ts) ts k
  unfolding unpack_tuples tuples_bytes
  tuples-Decodes ts b =
      counted-Decodes unpack_tuple tuple_bytes tuple_pos ts
        (each_of unpack_tuple tuple_bytes _ ts tuple-Decodes b) b

-- A list of tuples that was packed behind anything is read back, when what was added is shorter
-- than 2 ^ 32.
pub unpack_tuples-pack :
    (ts : List Tuple)
    → IsU32 (length (pack_tuples [] ts))
    → Decodes unpack_tuples (pack_tuples [] ts) ts (length (pack_tuples [] ts))
unpack_tuples-pack ts h = rw (pack_tuples-append [] ts) (
    tuples-Decodes (length (tuples_bytes ts)) (rw (pack_tuples-append [] ts) at h) ts (omega arith))
