-- ===== src/Octopus/Response.antt =====
-- The responses: UnpackResopnseStatus and PackResopnseStatus of pkg/octopus/pack.go, and ProcessResp
-- of pkg/octopus/box.go. A Go slice may end before its memory does: `spare` is what lies between the
-- length of the response and its capacity, which a slice expression can reach.
pub mod RoundTrip
pub mod Errors
pub mod Panics
pub mod Status
use activerecord.Prelude.{
  ℕ, zero, suc, ◌+◌, ◌-◌, ◌%◌, ◌/◌, ◌^◌, List, [], ◌∷◌, ◌++◌, length, take, drop, foldl, Bool, true,
  false, ltb, ◌==◌, ◌&&◌, if◌then◌else◌,
}
use activerecord.Go.{
  Result, ok, err, panic, Bytes, Error, small_response, many_tuples, empty_tuple, short_tuple,
  fields_overflow, extra_data, remote,
}
use activerecord.Go.Reader.{
  Reader, Read, new_reader, value_of, ◌>>=◌, ◌>>◌, return, fail, remaining, read_times,
}
use activerecord.Iproto.Pack.{mode_default, mode_ber, pack_uint32, unpack_uint32}
use activerecord.Octopus.Wire.{Tuple, pack_field}

pub record TupleData : Type 0 where
  pub cnt : ℕ
  pub fields : Tuple

crash : {A : Type 0} → Read A
crash r = panic

-- `if errStr[len(errStr)-1] == 0x0 { errStr = errStr[:len(errStr)-1] }`
unfoldable pub drop_zero : Bytes → Bytes
drop_zero [] = []
drop_zero (b ∷ []) = if b == 0 then [] else b ∷ []
drop_zero (b ∷ c ∷ bs) = b ∷ drop_zero (c ∷ bs)

-- `data[4:]` panics on a shorter slice.
remote_error : {A : Type 0} → Bytes → Read A
unfolding crash
remote_error d = if ltb (length d) 4 then crash else fail (remote (drop_zero (drop 4 d)))

-- `cnt, data[len(data)-rdr.Len():]`
status_count : Bytes → ℕ → Read (ℕ × Bytes)
status_count d left =
    if left == 0 then return (0, []) else if ltb left 4 then fail small_response else do
      cnt ← unpack_uint32 mode_default
      rest ← remaining
      return (cnt, drop (length d - rest) d)

status_body : Bytes → Read (ℕ × Bytes)
status_body d = do
  ret_code ← unpack_uint32 mode_default
  left ← remaining
  if ret_code == 0 then status_count d left else remote_error d

pub unpack_response_status : Bytes → Result Error (ℕ × Bytes)
unpack_response_status d = value_of (status_body d (new_reader d))

-- `respData[len(respData)-rdr.Len() : len(respData)-rdr.Len()+int(fieldLen)]`: what the reader has not
-- read, and the spare bytes behind it.
slice_next : Bytes → ℕ → Read Bytes
slice_next spare n r =
    if ltb (length r.rest + length spare) n then panic else ok (take n (r.rest ++ spare), r)

-- `rdr.Seek(int64(n), io.SeekCurrent)` may go past the end; then nothing is left.
seek : ℕ → Read (Unit {0})
seek n r = ok (tt, record r { rest = drop n r.rest })

pub check : Bool → Error → Read (Unit {0})
check failed e = if failed then fail e else return tt

-- The loop over the fields of one tuple, with the sum of their lengths so far.
resp_fields : Bytes → ℕ → ℕ → ℕ → Read Tuple
resp_fields spare tuple_size zero total = return []
resp_fields spare tuple_size (suc n) total = do
  field_len ← unpack_uint32 mode_ber
  check (ltb tuple_size ((total + field_len) % 2 ^ 32)) fields_overflow
  field ← slice_next spare field_len
  seek field_len
  more ← resp_fields spare tuple_size n ((total + field_len) % 2 ^ 32)
  return (field ∷ more)

resp_tuple : Bytes → Read TupleData
resp_tuple spare = do
  tuple_size ← unpack_uint32 mode_default
  left ← remaining
  check (ltb (left % 2 ^ 32) tuple_size) short_tuple
  field_cnt ← unpack_uint32 mode_default
  fields ← resp_fields spare tuple_size field_cnt 0
  return (record { cnt = field_cnt; fields = fields })

pub resp_tuples : Bytes → ℕ → Read (List TupleData)
resp_tuples spare tuple_cnt = do
  tuples ← read_times (resp_tuple spare) tuple_cnt
  left ← remaining
  check (ltb 0 left) extra_data
  return tuples

-- `cntFlag&UniqRespFlag == UniqRespFlag` and the test of NeedRespFlag: the bits of weight 1 and 2.
abbrev pub uniq_flag : ℕ → Bool
uniq_flag f = f % 2 == 1

abbrev pub need_flag : ℕ → Bool
need_flag f = f / 2 % 2 == 1

process_tuples : Bytes → ℕ → Result Error (ℕ × Bytes) → Result Error (List TupleData)
process_tuples spare cnt_flag (ok (tuple_cnt, resp_data)) =
    if uniq_flag cnt_flag && ltb 2 tuple_cnt
    then err many_tuples
    else if need_flag cnt_flag && tuple_cnt == 0
    then err empty_tuple
    else value_of (resp_tuples spare tuple_cnt (new_reader resp_data))
process_tuples spare cnt_flag (err e) = err e
process_tuples spare cnt_flag panic = panic

pub process_resp : Bytes → Bytes → ℕ → Result Error (List TupleData)
process_resp spare resp_bytes cnt_flag =
    process_tuples spare cnt_flag (unpack_response_status resp_bytes)

-- One tuple of a response: its size, the number of its fields, and they.
unfoldable pub tuple_payload : Tuple → Bytes
tuple_payload t = foldl pack_field (pack_uint32 [] (length t % 2 ^ 32) mode_default) t

unfoldable pub pack_resp_tuple : Bytes → Tuple → Bytes
pack_resp_tuple resp t =
    let payload = tuple_payload t in
    pack_uint32 resp (length payload % 2 ^ 32) mode_default ++ payload

-- `data[0][0]` panics where there is none.
unfoldable pub pack_error : Bytes → List Tuple → Result Error Bytes
pack_error resp [] = panic
pack_error resp ([] ∷ ts) = panic
pack_error resp ((message ∷ fields) ∷ ts) =
    ok (pack_uint32 resp (length (message ∷ fields) % 2 ^ 32) mode_default ++ message)

unfoldable pub pack_tuples_ok : Bytes → List Tuple → Bytes
pack_tuples_ok resp [] = resp
pack_tuples_ok resp (t ∷ ts) =
    foldl pack_resp_tuple (pack_uint32 resp (length (t ∷ ts) % 2 ^ 32) mode_default) (t ∷ ts)

unfoldable pub pack_response_status : ℕ → List Tuple → Result Error Bytes
pack_response_status status_code tuples =
    let resp = pack_uint32 [] status_code mode_default in
    if status_code == 0 then ok (pack_tuples_ok resp tuples) else pack_error resp tuples
