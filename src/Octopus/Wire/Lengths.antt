-- ===== src/Octopus/Wire/Lengths.antt =====
-- The lengths that the packers reserve are the lengths that they write.
use activerecord.Prelude.{
  ℕ, ◌+◌, ◌%◌, ◌^◌, List, [], ◌∷◌, ◌++◌, length, ◌≡◌, ◌∙◌, arith, length-append, flat_map, foldl,
  subst,
}
use activerecord.Go.{Bytes}
use activerecord.Iproto.Pack.{IsU32}
use activerecord.Iproto.Pack.Strings.{length-pack_bytes, length-pack_uint32}
use activerecord.Iproto.Pack.Ber.{encoding, length-encoding}
use activerecord.Octopus.Wire.{
  Tuple, byte_len, packed_field_len, packed_tuple_len, packed_keys_len, packed_key_len,
  packed_tuples_len, pack_tuple, pack_key, pack_tuples,
}
use activerecord.Octopus.Wire.RoundTrip.{
  u32_bytes, field_bytes, tuple_bytes, tuples_bytes, pack_tuple-append, pack_key-append,
  pack_tuples-append,
}

-- A loop that adds up lengths modulo 2 ^ 32 gets the length of what is written, when that fits.
sum_lengths :
    {A : Type 0} (len : A → ℕ) (enc : A → Bytes)
    → ((x : A) → IsU32 (length (enc x)) → len x ≡ length (enc x))
    → (start : ℕ) (xs : List A) → IsU32 (start + length (flat_map enc xs))
    → foldl (λ acc x. (acc + len x) % 2 ^ 32) start xs ≡ start + length (flat_map enc xs)
unfolding flat_map
sum_lengths len enc h start [] b = omega arith
sum_lengths len enc h start (x ∷ xs) b =
    let total = length-append (enc x) (flat_map enc xs) in
    let here : len x ≡ length (enc x) = h x (omega (arith, total)) in
    let next : (start + len x) % 2 ^ 32 ≡ start + length (enc x) = omega (arith, total, here) in
    rw next (
      sum_lengths len enc h (start + length (enc x)) xs (omega (arith, total))
      ∙ omega (arith, total))

-- ByteLen adds to a length the size of its BER encoding.
pub byte_len-encoding :
    (n : ℕ) → IsU32 (length (encoding n) + n) → byte_len n ≡ length (encoding n) + n
unfolding byte_len
byte_len-encoding n h = ground (arith, length-encoding n)

pub packed_field_len-pack_field :
    (f : Bytes) → IsU32 (length (field_bytes f)) → packed_field_len f ≡ length (field_bytes f)
unfolding packed_field_len
packed_field_len-pack_field f h =
    let size = length-pack_bytes f in
    let fits : length f % 2 ^ 32 ≡ length f = omega (arith, size) in
    byte_len-encoding (length f % 2 ^ 32) (omega (arith, size)) ∙ omega (arith, size)

counted_length :
    {A : Type 0} (len : A → ℕ) (enc : A → Bytes)
    → ((x : A) → IsU32 (length (enc x)) → len x ≡ length (enc x))
    → (n : ℕ) (xs : List A) → IsU32 (length (u32_bytes n ++ flat_map enc xs))
    → foldl (λ acc x. (acc + len x) % 2 ^ 32) 4 xs ≡ length (u32_bytes n ++ flat_map enc xs)
counted_length len enc h n xs b =
    let total = length-append (u32_bytes n) (flat_map enc xs) in
    let four = length-pack_uint32 n in
    sum_lengths len enc h 4 xs (omega (arith, total, four)) ∙ omega (arith, total, four)

-- What PackTuple writes is as long as PackedTupleLen says, unless the length does not fit a uint32.
pub packed_tuple_len-pack_tuple :
    (t : Tuple) → IsU32 (length (pack_tuple [] t)) → packed_tuple_len t ≡ length (pack_tuple [] t)
unfolding packed_tuple_len tuple_bytes
packed_tuple_len-pack_tuple t =
    rw (pack_tuple-append [] t) (
      counted_length packed_field_len field_bytes packed_field_len-pack_field (length t % 2 ^ 32) t)

pub packed_key_len-pack_key :
    (t : Tuple) → IsU32 (length (pack_key [] t)) → packed_key_len t ≡ length (pack_key [] t)
unfolding packed_key_len packed_keys_len tuple_bytes
packed_key_len-pack_key t =
    rw (pack_key-append [] t) (
      counted_length packed_field_len field_bytes packed_field_len-pack_field (length t % 2 ^ 32) t)

packed_tuple_len-tuple_bytes :
    (t : Tuple) → IsU32 (length (tuple_bytes t)) → packed_tuple_len t ≡ length (tuple_bytes t)
packed_tuple_len-tuple_bytes t =
    subst (λ bs. IsU32 (length bs) → packed_tuple_len t ≡ length bs) (pack_tuple-append [] t)
      (packed_tuple_len-pack_tuple t)

-- What PackTuples writes is as long as PackedTuplesLen says, unless the length does not fit a uint32.
pub packed_tuples_len-pack_tuples :
    (ts : List Tuple)
    → IsU32 (length (pack_tuples [] ts))
    → packed_tuples_len ts ≡ length (pack_tuples [] ts)
unfolding packed_tuples_len tuples_bytes
packed_tuples_len-pack_tuples ts = rw (pack_tuples-append [] ts) (
    counted_length packed_tuple_len tuple_bytes packed_tuple_len-tuple_bytes (length ts % 2 ^ 32)
      ts)
