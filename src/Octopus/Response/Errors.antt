-- ===== src/Octopus/Response/Errors.antt =====
-- Responses that report an error.
use activerecord.Prelude.{
  suc, append_assoc, ℕ, ◌+◌, ◌%◌, ◌^◌, List, ◌∷◌, ◌++◌, length, drop, ◌≡◌, ◌≢◌, ap, ◌∙◌, arith,
  length-append, false, ◌==◌, ltb, if◌then◌else◌, drop-append,
}
use activerecord.Go.{Bytes, ok, err, remote}
use activerecord.Go.Reader.{value_of, at, fail}
use activerecord.Go.Reader.Decodes.{step-Decodes, remaining_step}
use activerecord.Iproto.Pack.{IsU32, mode_default}
use activerecord.Iproto.Pack.Strings.{unpack_uint32-pack, length-pack_uint32, pack_uint32-append}
use activerecord.Octopus.Wire.{Tuple}
use activerecord.Octopus.Wire.RoundTrip.{u32_bytes}
use activerecord.Octopus.Response.{
  pack_response_status, pack_error, unpack_response_status, status_body, remote_error, drop_zero,
  status_count,
}

module _ (code : ℕ) (message : Bytes) where
  remote_error_lem :
      (k : ℕ)
      → remote_error {A = ℕ × Bytes} (u32_bytes code ++ message) (at message k)
        ≡ err (remote (drop_zero message))
  unfolding remote_error fail
  remote_error_lem k =
      let all = length-append (u32_bytes code) message in
      let four = length-pack_uint32 code in
      let long : ltb (length (u32_bytes code ++ message)) 4 ≡ false = ground (arith, all, four) in
      let rest : drop 4 (u32_bytes code ++ message) ≡ message =
        rw (← four) (drop-append (u32_bytes code) message) in
      rw (long, rest)

  branch_lem :
      (k : ℕ)
      → code ≢ 0
      → (if code == 0
            then status_count (u32_bytes code ++ message) (length message)
            else remote_error (u32_bytes code ++ message))
          (at message k)
        ≡ err (remote (drop_zero message))
  branch_lem k nz =
      let failed : (code == 0) ≡ false = ground arith in
      rw (failed, if◌then◌else◌) (remote_error_lem k)

  -- What stands behind a return code other than 0 is the message, less one zero at its end.
  pub status_error_lem :
      IsU32 code
      → code ≢ 0
      → unpack_response_status (u32_bytes code ++ message) ≡ err (remote (drop_zero message))
  unfolding unpack_response_status status_body
  status_error_lem h nz =
      let d = u32_bytes code ++ message in
      ap value_of (
        step-Decodes _ _ (unpack_uint32-pack code (length d) mode_default h) (omega arith)
        ∙ remaining_step _ _
        ∙ branch_lem (length d) nz)

packed_error :
    (code : ℕ) (message : Bytes) (fields : Tuple) (more : List Tuple)
    → code ≢ 0
    → pack_response_status code ((message ∷ fields) ∷ more)
      ≡ ok (u32_bytes code ++ (u32_bytes ((1 + length fields) % 2 ^ 32) ++ message))
unfolding pack_response_status pack_error
packed_error code message fields more nz =
    let n = (1 + length fields) % 2 ^ 32 in
    let failed : (code == 0) ≡ false = ground arith in
    let one_more : suc (length fields) ≡ 1 + length fields = omega arith in
    rw (
      failed,
      one_more,
      pack_uint32-append (u32_bytes code) n mode_default,
      append_assoc (u32_bytes code) (u32_bytes n) message,
    )

-- A message that was packed comes back with the number of the fields of its tuple, as four bytes,
-- before it (not its length), and less one zero at its end.
pub unpack_response_status-pack_error :
    (code : ℕ) (message : Bytes) (fields : Tuple) (more : List Tuple) (d : Bytes)
    → IsU32 code
    → code ≢ 0
    → pack_response_status code ((message ∷ fields) ∷ more) ≡ ok d
    → unpack_response_status d
      ≡ err (remote (drop_zero (u32_bytes ((1 + length fields) % 2 ^ 32) ++ message)))
unpack_response_status-pack_error code message fields more d h nz e =
    let n = (1 + length fields) % 2 ^ 32 in
    let failed : (code == 0) ≡ false = ground arith in
    let packed : pack_response_status code ((message ∷ fields) ∷ more)
        ≡ ok (u32_bytes code ++ (u32_bytes n ++ message)) =
      packed_error code message fields more nz in
    let same : d ≡ u32_bytes code ++ (u32_bytes n ++ message) = cc in
    rw same (status_error_lem code (u32_bytes n ++ message) h nz)
