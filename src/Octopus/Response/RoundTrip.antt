-- ===== src/Octopus/Response/RoundTrip.antt =====
-- ProcessResp on what PackResopnseStatus wrote.
use activerecord.Prelude.{
  ℕ, ◌+◌, ◌%◌, ◌^◌, ◌≤◌, List, [], ◌∷◌, ◌++◌, length, ◌≡◌, refl, ◌∙◌, arith, append_assoc,
  append-nil, All, length-append, flat_map, Bool, false, ltb, subst, map, take-append, drop-append,
  flat_map-All,
}
use activerecord.Go.{Bytes, ok, Error}
use activerecord.Go.Reader.{
  Read, ◌>>=◌, ◌>>◌, read_times, new_reader, value_of, at, remaining, return,
}
use activerecord.Go.Reader.Decodes.{Decodes, >>=-Decodes, >>=-return-Decodes, return-Decodes}
use activerecord.Iproto.Pack.{IsU32, mode_default, mode_ber, pack_uint32, unpack_uint32}
use activerecord.Iproto.Pack.Strings.{
  unpack_uint32-pack, pack_uint32-append, length-pack_uint32, length-pack_bytes-ber,
  pack_bytes-split,
}
use activerecord.Octopus.Wire.{Tuple, pack_field}
use activerecord.Octopus.Wire.RoundTrip.{
  u32_bytes, field_bytes, tuple_bytes, pack_field-append, counted,
}
use activerecord.Octopus.Response.{
  TupleData, check, slice_next, seek, resp_fields, resp_tuple, resp_tuples, tuple_payload,
  pack_resp_tuple,
}

pub check-Decodes : (b : Bool) (e : Error) (k : ℕ) → b ≡ false → Decodes (check b e) [] tt k
unfolding check
check-Decodes b e k p = rw p (return-Decodes tt)

-- The two steps that take a field out of the response.
take_field-Decodes :
    {A : Type 0} (spare f : Bytes) (g : Bytes → Read A) (cs : Bytes) {a : A} {k : ℕ}
    → Decodes (g f) cs a k
    → Decodes (slice_next spare (length f) >>= λ x. seek (length f) >> g x) (f ++ cs) a k
unfolding ◌>>=◌ slice_next seek
take_field-Decodes spare f g cs {a} {k} d = record {
  run = λ ys. rw (append_assoc f cs ys) λ b.
      let enough : ltb (length (f ++ (cs ++ ys)) + length spare) (length f) ≡ false =
        ground (arith, length-append f (cs ++ ys)) in
      rw
        (
          enough,
          append_assoc f (cs ++ ys) spare,
          take-append f ((cs ++ ys) ++ spare),
          drop-append f (cs ++ ys),
          ◌>>=◌,
        )
        (d.run ys (omega (arith, length-append f (cs ++ ys))));
}

-- The length of the fields alone.
abbrev lengths : Tuple → ℕ
lengths [] = 0
lengths (f ∷ t) = length f + lengths t

resp_fields-Decodes :
    (spare : Bytes) (size k : ℕ) (t : Tuple) (total : ℕ)
    → total + lengths t ≤ size
    → IsU32 size
    → Decodes (resp_fields spare size (length t) total) (flat_map field_bytes t) t k
unfolding resp_fields flat_map
resp_fields-Decodes spare size k [] total b small = return-Decodes []
resp_fields-Decodes spare size k (f ∷ t) total b small =
    let fits : length f % 2 ^ 32 ≡ length f = omega arith in
    let sum : (total + length f) % 2 ^ 32 ≡ total + length f = omega arith in
    let len_bytes = pack_uint32 [] (length f) mode_ber in
    rw (pack_bytes-split f mode_ber, fits, append_assoc len_bytes f (flat_map field_bytes t))
      (>>=-Decodes _ (unpack_uint32-pack (length f) k mode_ber (omega arith)) (
        >>=-Decodes _ (check-Decodes _ _ k (ground arith)) (
          take_field-Decodes spare f _ (flat_map field_bytes t) (
            >>=-return-Decodes (λ more. f ∷ more)
              (rw sum
                (resp_fields-Decodes spare size k t (total + length f) (omega arith) small))))))

abbrev pub tuple_data : Tuple → TupleData
tuple_data t = record { cnt = length t; fields = t }

tuple_payload-bytes : (t : Tuple) → tuple_payload t ≡ tuple_bytes t
unfolding tuple_payload tuple_bytes
tuple_payload-bytes t = counted pack_field field_bytes pack_field-append [] _ t

pub resp_tuple_bytes : Tuple → Bytes
resp_tuple_bytes t = u32_bytes (length (tuple_bytes t) % 2 ^ 32) ++ tuple_bytes t

pub pack_resp_tuple-append : (w : Bytes) (t : Tuple) → pack_resp_tuple w t ≡ w ++ resp_tuple_bytes t
unfolding pack_resp_tuple resp_tuple_bytes
pack_resp_tuple-append w t =
    rw (tuple_payload-bytes t, pack_uint32-append w (length (tuple_bytes t) % 2 ^ 32) mode_default)
      (append_assoc w (u32_bytes (length (tuple_bytes t) % 2 ^ 32)) (tuple_bytes t))

-- The fields are shorter than what holds them, and at most as many as its bytes.
lengths-le : (t : Tuple) → lengths t + length t ≤ length (flat_map field_bytes t)
unfolding flat_map
lengths-le [] = omega arith
lengths-le (f ∷ t) = omega (
  arith,
  length-append (field_bytes f) (flat_map field_bytes t),
  length-pack_bytes-ber f,
  lengths-le t,
)

length-tuple_bytes : (t : Tuple) → length (tuple_bytes t) ≡ 4 + length (flat_map field_bytes t)
unfolding tuple_bytes
length-tuple_bytes t = omega (
  arith,
  length-append (u32_bytes (length t % 2 ^ 32)) (flat_map field_bytes t),
  length-pack_uint32 (length t % 2 ^ 32),
)

-- The test of what is left.
left_step-Decodes :
    {A : Type 0} (size : ℕ) (e : Error) (m : Read A) (bs : Bytes) {a : A} {k : ℕ}
    → IsU32 k
    → size ≤ length bs
    → Decodes m bs a k
    → Decodes (remaining >>= λ left. check (ltb (left % 2 ^ 32) size) e >> m) bs a k
unfolding ◌>>=◌ remaining check return
left_step-Decodes size e m bs small b d = record {
  run = λ ys h.
      let enough : ltb (length (bs ++ ys) % 2 ^ 32) size ≡ false =
        ground (arith, length-append bs ys) in
      rw (enough, ◌>>=◌) (d.run ys h);
}

-- The number of the fields and they, inside a size that holds both.
payload-Decodes :
    (spare : Bytes) (k size : ℕ) (t : Tuple)
    → IsU32 size
    → size ≡ length (tuple_bytes t)
    → Decodes
        (unpack_uint32 mode_default >>= λ n.
          resp_fields spare size n 0 >>= λ fields. return (record { cnt = n; fields = fields }))
        (tuple_bytes t)
        (tuple_data t)
        k
unfolding tuple_bytes
payload-Decodes spare k size t small e =
    let parts : size ≡ 4 + length (flat_map field_bytes t) = e ∙ length-tuple_bytes t in
    let few = lengths-le t in
    let count : length t % 2 ^ 32 ≡ length t = omega (arith, parts, few) in
    rw count (
      >>=-Decodes _ (unpack_uint32-pack (length t) k mode_default (omega (arith, parts, few))) (
        >>=-return-Decodes (λ fs. record { cnt = length t; fields = fs })
          (resp_fields-Decodes spare size k t 0 (omega (arith, parts, few)) small)))

resp_tuple-Decodes :
    (spare : Bytes) (k : ℕ) (t : Tuple)
    → IsU32 k
    → length (resp_tuple_bytes t) ≤ k
    → Decodes (resp_tuple spare) (resp_tuple_bytes t) (tuple_data t) k
unfolding resp_tuple resp_tuple_bytes
resp_tuple-Decodes spare k t small b =
    let size = length (tuple_bytes t) in
    let all = length-append (u32_bytes (size % 2 ^ 32)) (tuple_bytes t) in
    let fits : size % 2 ^ 32 ≡ size = omega (arith, all) in
    rw fits (
      >>=-Decodes _ (unpack_uint32-pack size k mode_default (omega (arith, all))) (
        left_step-Decodes size _ _ (tuple_bytes t) small (omega arith)
          (payload-Decodes spare k size t (omega (arith, all)) refl)))

each_resp :
    (spare : Bytes) (k : ℕ)
    → IsU32 k
    → (ts : List Tuple) → length (flat_map resp_tuple_bytes ts) ≤ k
    → All (λ t. Decodes (resp_tuple spare) (resp_tuple_bytes t) (tuple_data t) k) ts
each_resp spare k small =
    flat_map-All resp_tuple_bytes
      (λ t. Decodes (resp_tuple spare) (resp_tuple_bytes t) (tuple_data t) k) k
      (λ t b. resp_tuple-Decodes spare k t small b)

-- The loop over the tuples, whose values are read as records.
loop-Decodes :
    (spare : Bytes) (k : ℕ) (ts : List Tuple)
    → All (λ t. Decodes (resp_tuple spare) (resp_tuple_bytes t) (tuple_data t) k) ts
    → Decodes
        (read_times (resp_tuple spare) (length ts))
        (flat_map resp_tuple_bytes ts)
        (map tuple_data ts)
        k
unfolding read_times flat_map
loop-Decodes spare k [] h = return-Decodes []
loop-Decodes spare k (t ∷ ts) h =
    >>=-Decodes _ h.0
      (>>=-return-Decodes (λ more. tuple_data t ∷ more) (loop-Decodes spare k ts h.1))

-- The tuples of a response that was packed, from a reader behind their number.
pub resp_tuples_lem :
    (spare : Bytes) (ts : List Tuple)
    → IsU32 (length (flat_map resp_tuple_bytes ts))
    → value_of (resp_tuples spare (length ts) (new_reader (flat_map resp_tuple_bytes ts)))
      ≡ ok (map tuple_data ts)
unfolding resp_tuples ◌>>=◌ remaining check return
resp_tuples_lem spare ts small =
    let bs = flat_map resp_tuple_bytes ts in
    let d =
      loop-Decodes spare (length bs) ts (each_resp spare (length bs) small ts (omega arith)) in
    let run : read_times (resp_tuple spare) (length ts) (new_reader bs)
        ≡ ok (map tuple_data ts, at [] (length bs)) =
      subst
        (λ xs.
          read_times (resp_tuple spare) (length ts) (at xs (length bs))
          ≡ ok (map tuple_data ts, at [] (length bs)))
        (append-nil bs) (d.run [] (rw append-nil (omega arith))) in
    rw (run, ◌>>=◌)

pub resp_pos : (t : Tuple) → 1 ≤ length (resp_tuple_bytes t)
unfolding resp_tuple_bytes
resp_pos t =
    let n = length (tuple_bytes t) % 2 ^ 32 in
    omega (arith, length-append (u32_bytes n) (tuple_bytes t), length-pack_uint32 n)
