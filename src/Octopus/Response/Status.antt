-- ===== src/Octopus/Response/Status.antt =====
-- The head of a response: the return code and the number of tuples, or the message of the server.
use activerecord.Prelude.{
  ℕ, ◌-◌, ◌%◌, ◌^◌, ◌≤◌, List, [], ◌∷◌, ◌++◌, length, drop, ◌≡◌, refl, sym, ap, ◌∙◌, arith,
  append_assoc, append-nil, length-append, length-append-right, flat_map, false, ◌==◌, ltb, ◌&&◌,
  if◌then◌else◌, subst, length-flat_map-ge, map, drop-append,
}
use activerecord.Go.{Bytes, ok, err, many_tuples, empty_tuple}
use activerecord.Go.Reader.{read, ◌>>=◌, value_of, at, remaining, return}
use activerecord.Go.Reader.Decodes.{step-Decodes, remaining_step}
use activerecord.Iproto.Pack.{IsU32, mode_default, pack_uint32, unpack_uint32, little_endian}
use activerecord.Iproto.Pack.Strings.{unpack_uint32-pack, length-pack_uint32}
use activerecord.Octopus.Wire.{Tuple}
use activerecord.Octopus.Wire.RoundTrip.{u32_bytes, counted}
use activerecord.Octopus.Response.{
  process_resp, process_tuples, uniq_flag, need_flag, pack_response_status, pack_tuples_ok,
  pack_resp_tuple, unpack_response_status, status_body, status_count,
}
use activerecord.Octopus.Response.RoundTrip.{
  tuple_data, resp_pos, resp_tuple_bytes, pack_resp_tuple-append, resp_tuples_lem,
}

after_eight :
    (n : ℕ) (bs : Bytes)
    → drop
        (length (u32_bytes 0 ++ (u32_bytes n ++ bs)) - length bs)
        (u32_bytes 0 ++ (u32_bytes n ++ bs))
      ≡ bs
after_eight n bs =
    let head = u32_bytes 0 ++ u32_bytes n in
    let long : length (head ++ bs) - length bs ≡ length head =
      omega (arith, length-append head bs) in
    rw (← append_assoc (u32_bytes 0) (u32_bytes n) bs, long) (drop-append head bs)

-- The number of tuples, and what stands behind it.
count_step :
    (d : Bytes) (n : ℕ) (bs : Bytes) (k : ℕ)
    → IsU32 n
    → length (u32_bytes n ++ bs) ≤ k
    → status_count d (length (u32_bytes n ++ bs)) (at (u32_bytes n ++ bs) k)
      ≡ ok ((n, drop (length d - length bs) d), at bs k)
unfolding status_count
count_step d n bs k h b =
    let all = length-append (u32_bytes n) bs in
    let four = length-pack_uint32 n in
    let some_left : (length (u32_bytes n ++ bs) == 0) ≡ false = ground (arith, all, four) in
    let enough : ltb (length (u32_bytes n ++ bs)) 4 ≡ false = ground (arith, all, four) in
    rw (some_left, enough, if◌then◌else◌)
      (step-Decodes _ _ (unpack_uint32-pack n k mode_default h) b
        ∙ unfold ◌>>=◌ remaining return in refl)

-- A response of success that counts its tuples.
pub status_count_lem :
    (n : ℕ) (bs : Bytes)
    → IsU32 n
    → unpack_response_status (u32_bytes 0 ++ (u32_bytes n ++ bs)) ≡ ok (n, bs)
unfolding unpack_response_status status_body
status_count_lem n bs h =
    let d = u32_bytes 0 ++ (u32_bytes n ++ bs) in
    ap value_of (
      step-Decodes _ _ (unpack_uint32-pack 0 (length d) mode_default (omega arith)) (omega arith)
      ∙ remaining_step _ _
      ∙ count_step d n bs (length d) h (length-append-right (u32_bytes 0) (u32_bytes n ++ bs)))
    ∙ rw (after_eight n bs)

-- A response of success with nothing behind its return code.
pub status_empty_lem : unpack_response_status (u32_bytes 0) ≡ ok (0, [])
unfolding unpack_response_status status_body status_count unpack_uint32 pack_uint32 read
    little_endian ◌>>=◌ remaining return
status_empty_lem = refl

-- What a packed response of success holds behind its return code.
ok_bytes : List Tuple → Bytes
ok_bytes [] = []
ok_bytes (t ∷ ts) = u32_bytes (length (t ∷ ts) % 2 ^ 32) ++ flat_map resp_tuple_bytes (t ∷ ts)

pack_ok-bytes : (ts : List Tuple) → pack_response_status 0 ts ≡ ok (u32_bytes 0 ++ ok_bytes ts)
unfolding pack_response_status pack_tuples_ok ok_bytes
pack_ok-bytes [] = ap ok (sym (append-nil (u32_bytes 0)))
pack_ok-bytes (t ∷ ts) =
    ap ok (counted pack_resp_tuple resp_tuple_bytes pack_resp_tuple-append (u32_bytes 0) _ (t ∷ ts))

status_ok :
    (ts : List Tuple)
    → IsU32 (length ts)
    → IsU32 (length (u32_bytes 0 ++ ok_bytes ts))
    → unpack_response_status (u32_bytes 0 ++ ok_bytes ts)
      ≡ ok (length ts, flat_map resp_tuple_bytes ts)
unfolding ok_bytes flat_map
status_ok [] m h = rw (append-nil (u32_bytes 0)) status_empty_lem
status_ok (t ∷ ts) m h =
    let fits : length (t ∷ ts) % 2 ^ 32 ≡ length (t ∷ ts) = omega arith in
    rw fits (status_count_lem (length (t ∷ ts)) (flat_map resp_tuple_bytes (t ∷ ts)) m)

length-ok_bytes :
    (ts : List Tuple) → length (flat_map resp_tuple_bytes ts) ≤ length (u32_bytes 0 ++ ok_bytes ts)
unfolding ok_bytes flat_map
length-ok_bytes [] = omega arith
length-ok_bytes (t ∷ ts) =
    let body = flat_map resp_tuple_bytes (t ∷ ts) in
    let n = u32_bytes (length (t ∷ ts) % 2 ^ 32) in
    omega (arith, length-append-right (u32_bytes 0) (n ++ body), length-append-right n body)

-- ProcessResp on a response of success that was packed gives the tuples back, each with the number
-- of its fields, unless the flags refuse their number: with the flag for a unique answer more than
-- two of them (not more than one), with the flag that wants an answer none.
pub process_resp-pack :
    (spare : Bytes) (ts : List Tuple) (cnt_flag : ℕ) (d : Bytes)
    → pack_response_status 0 ts ≡ ok d
    → IsU32 (length d)
    → process_resp spare d cnt_flag ≡ (
        if uniq_flag cnt_flag && ltb 2 (length ts)
        then err many_tuples
        else if need_flag cnt_flag && length ts == 0
        then err empty_tuple
        else ok (map tuple_data ts))
unfolding process_resp process_tuples
process_resp-pack spare ts cnt_flag d e h =
    let same : d ≡ u32_bytes 0 ++ ok_bytes ts = cc (pack_ok-bytes ts) in
    let small : IsU32 (length (u32_bytes 0 ++ ok_bytes ts)) =
      subst (λ bs. IsU32 (length bs)) same h in
    let short : IsU32 (length (flat_map resp_tuple_bytes ts)) = omega (arith, length-ok_bytes ts) in
    let few : IsU32 (length ts) = omega (arith, length-flat_map-ge resp_tuple_bytes resp_pos ts) in
    rw (same, status_ok ts few small, resp_tuples_lem spare ts short)
