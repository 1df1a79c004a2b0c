-- ===== src/Tests/Responses.antt =====
-- The responses of pkg/octopus at concrete inputs.
use activerecord.Prelude.{◌++◌, List, [], ◌∷◌, ◌≡◌, ◌≢◌, refl, arith, length, map}
use activerecord.Go.{ok, Bytes}
use activerecord.Iproto.Pack.{
  mode_ber, pack_uint32, pack_uint64_ber, ber_loop, pack_bytes, little_endian,
}
use activerecord.Octopus.Wire.{Tuple, pack_field}
use activerecord.Octopus.Wire.RoundTrip.{u32_bytes}
use activerecord.Octopus.Response.{
  pack_response_status, process_resp, pack_error, pack_tuples_ok, pack_resp_tuple, tuple_payload,
}
use activerecord.Octopus.Response.RoundTrip.{tuple_data}
use activerecord.Octopus.Response.Status.{process_resp-pack}

abbrev word : Bytes
word = b'b' ∷ b'a' ∷ b'd' ∷ []

abbrev rows : List Tuple
rows = (word ∷ (1 ∷ []) ∷ []) ∷ ((2 ∷ []) ∷ []) ∷ []

-- What PackResopnseStatus makes of the rows.
abbrev rows_bytes : Bytes
rows_bytes =
    0 ∷ 0 ∷ 0 ∷ 0 ∷ 2 ∷ 0 ∷ 0 ∷ 0 ∷ 10 ∷ 0 ∷ 0 ∷ 0 ∷ 2 ∷ 0 ∷ 0 ∷ 0 ∷ 3 ∷ b'b' ∷ b'a' ∷ b'd' ∷ 1 ∷ 1
    ∷ 6 ∷ 0 ∷ 0 ∷ 0 ∷ 1 ∷ 0 ∷ 0 ∷ 0 ∷ 1 ∷ 2 ∷ []

rows_packed : pack_response_status 0 rows ≡ ok rows_bytes
unfolding pack_response_status pack_tuples_ok pack_resp_tuple tuple_payload pack_field pack_bytes
    pack_uint32 pack_uint64_ber ber_loop
rows_packed = refl

-- Two tuples pass under the flag for a unique answer.
process_resp-pack_example : process_resp [] rows_bytes 1 ≡ ok (map tuple_data rows)
process_resp-pack_example = process_resp-pack [] rows 1 rows_bytes rows_packed (omega arith)

error_packed : pack_response_status 2 ((word ∷ []) ∷ []) ≡ ok (2 ∷ 0 ∷ 0 ∷ 0 ∷ 1 ∷ 0 ∷ 0 ∷ 0 ∷ word)
unfolding pack_response_status pack_error pack_uint32
error_packed = refl

not_success : little_endian (2 ∷ []) ≢ 0
unfolding little_endian
not_success e = omega arith

-- A tuple of nine bytes whose field claims nine bytes, of which four are there.
overrun_payload : length (u32_bytes 1 ++ (pack_uint32 [] 9 mode_ber ++ (1 ∷ 2 ∷ 3 ∷ 4 ∷ []))) ≡ 9
unfolding pack_uint32 pack_uint64_ber ber_loop
overrun_payload = refl
