-- ===== src/Octopus/Response/Panics.antt =====
-- Responses on which the client panics.
use activerecord.Prelude.{
  ℕ, suc, ◌+◌, ◌%◌, ◌^◌, ◌≤◌, ◌<◌, [], ◌∷◌, ◌++◌, length, ◌≡◌, ◌≢◌, ap, ◌∙◌, arith, length-append,
  true, false, ◌==◌, ◌&&◌, ltb,
}
use activerecord.Go.{Bytes, panic}
use activerecord.Go.Reader.{Reader, Read, ◌>>=◌, value_of, at, new_reader, remaining, read_times}
use activerecord.Go.Reader.Decodes.{step-Decodes, remaining_step}
use activerecord.Iproto.Pack.{IsU32, mode_default, mode_ber, pack_uint32, little_endian}
use activerecord.Iproto.Pack.Short.{unpack_uint32_short}
use activerecord.Iproto.Pack.Strings.{unpack_uint32-pack}
use activerecord.Octopus.Wire.RoundTrip.{u32_bytes}
use activerecord.Octopus.Response.{
  unpack_response_status, status_body, remote_error, crash, process_resp, process_tuples,
  resp_tuples, resp_tuple, resp_fields, slice_next, uniq_flag, need_flag,
}
use activerecord.Octopus.Response.RoundTrip.{check-Decodes}
use activerecord.Octopus.Response.Status.{status_count_lem}

-- A response of one to three bytes that are not all zeros: the missing bytes of the code count as
-- zeros, and then `data[4:]` is out of range.
pub unpack_response_status_short :
    (b : ℕ) (bs : Bytes)
    → length bs < 3
    → little_endian (b ∷ bs) ≢ 0
    → unpack_response_status (b ∷ bs) ≡ panic
unfolding unpack_response_status status_body ◌>>=◌ remaining remote_error crash
unpack_response_status_short b bs h nz =
    let read_code = (unpack_uint32_short b bs (length (b ∷ bs)) h).1 in
    let failed : (little_endian (b ∷ bs) == 0) ≡ false = ground arith in
    let short : ltb (length (b ∷ bs)) 4 ≡ true = ground arith in
    rw (read_code, ◌>>=◌, failed, short)

panic_step :
    {A B : Type 0} (m : Read A) (f : A → Read B) (r : Reader) → m r ≡ panic → (m >>= f) r ≡ panic
unfolding ◌>>=◌
panic_step m f r e = rw (e, ◌>>=◌)

module _ (size len k : ℕ) (tail : Bytes) (small : IsU32 len) (within : len ≤ size)
    (fits : IsU32 size) (past : length tail < len) where
  slice_panics : slice_next [] len (at tail k) ≡ panic
  unfolding slice_next
  slice_panics = let out : ltb (length tail + length {A = ℕ} []) len ≡ true = ground arith in rw out

  fields_panic :
      (n : ℕ)
      → length (pack_uint32 [] len mode_ber ++ tail) ≤ k
      → resp_fields [] size (suc n) 0 (at (pack_uint32 [] len mode_ber ++ tail) k) ≡ panic
  unfolding resp_fields
  fields_panic n b =
      let total : ltb size ((0 + len) % 2 ^ 32) ≡ false = ground arith in
      step-Decodes _ tail (unpack_uint32-pack len k mode_ber small) b
      ∙ step-Decodes _ tail (check-Decodes _ _ k total)
          (omega (arith, length-append (pack_uint32 [] len mode_ber) tail))
      ∙ panic_step _ _ (at tail k) slice_panics

  payload_bytes : ℕ → Bytes
  payload_bytes n = u32_bytes (suc n) ++ (pack_uint32 [] len mode_ber ++ tail)

  tuple_panics :
      (n : ℕ)
      → IsU32 (suc n)
      → IsU32 (length (payload_bytes n))
      → size ≤ length (payload_bytes n)
      → length (u32_bytes size ++ payload_bytes n) ≤ k
      → resp_tuple [] (at (u32_bytes size ++ payload_bytes n) k) ≡ panic
  unfolding resp_tuple payload_bytes
  tuple_panics n hn hs room b =
      let inner = pack_uint32 [] len mode_ber ++ tail in
      let payload = u32_bytes (suc n) ++ inner in
      let all = length-append (u32_bytes size) payload in
      let body = length-append (u32_bytes (suc n)) inner in
      let enough : ltb (length payload % 2 ^ 32) size ≡ false = ground arith in
      step-Decodes _ payload (unpack_uint32-pack size k mode_default fits) b
      ∙ remaining_step _ (at payload k)
      ∙ step-Decodes _ payload (check-Decodes _ _ k enough) (omega (arith, all))
      ∙ step-Decodes _ inner (unpack_uint32-pack (suc n) k mode_default hn) (omega (arith, all))
      ∙ panic_step _ _ (at inner k) (fields_panic n (omega (arith, all, body)))

-- A response of one tuple whose size is right and whose first field says that it is longer than what
-- is left of the response (yet not longer than the tuple) makes ProcessResp panic, when the slice has
-- no spare capacity and whatever the flags are.
pub process_resp_overrun :
    (size len n cnt_flag : ℕ) (tail : Bytes)
    → let payload = u32_bytes (suc n) ++ (pack_uint32 [] len mode_ber ++ tail) in
      IsU32 size
      → IsU32 (suc n)
      → IsU32 (length payload)
      → size ≤ length payload
      → len ≤ size
      → length tail < len
      → process_resp [] (u32_bytes 0 ++ (u32_bytes 1 ++ (u32_bytes size ++ payload))) cnt_flag
        ≡ panic
unfolding process_resp process_tuples resp_tuples read_times payload_bytes
process_resp_overrun size len n cnt_flag tail hs hn hp room within past =
    let payload = u32_bytes (suc n) ++ (pack_uint32 [] len mode_ber ++ tail) in
    let d = u32_bytes size ++ payload in
    let one : (uniq_flag cnt_flag && ltb 2 1) ≡ false = ground arith in
    let nonempty : (need_flag cnt_flag && 1 == 0) ≡ false = ground arith in
    let small : IsU32 len = omega arith in
    let inner =
      tuple_panics size len (length d) tail small within hs past n hn hp room (omega arith) in
    rw (status_count_lem 1 d (omega arith), one, nonempty)
      (ap value_of (panic_step _ _ (new_reader d) (panic_step _ _ (new_reader d) inner)))
