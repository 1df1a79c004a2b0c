-- ===== src/Octopus/Request.antt =====
-- The requests of pkg/octopus/box.go, and UnpackSelect of pkg/octopus/testutil.go. The capacity that
-- each packer reserves for its slice is not part of the result; Wire.Lengths is about it. The capacity
-- that UnpackUpdate reserves, for a number that it reads, is left out too: memory is not modelled.
pub mod RoundTrip
pub mod Update
use activerecord.Prelude.{
  ℕ, ◌%◌, ◌^◌, List, [], ◌∷◌, ◌++◌, length, foldl, Bool, true, false, ◌==◌, if◌then◌else◌,
}
use activerecord.Go.{Result, ok, err, panic, Bytes, Error, not_lua}
use activerecord.Go.Reader.{
  Reader, Read, new_reader, value_of, ◌>>=◌, ◌>>◌, return, fail, remaining, read_times,
}
use activerecord.Iproto.Pack.{
  mode_default, mode_ber, pack_uint32, pack_bytes, unpack_uint32, unpack_bytes,
}
use activerecord.Octopus.Wire.{
  Tuple, Ops, pack_space, unpack_space, pack_request_flags_val, unpack_request_flags_val,
  pack_tuple, unpack_tuple, pack_key, unpack_key, pack_tuples, unpack_tuples, pack_index_num,
  unpack_index_num, pack_offset, unpack_offset, pack_limit, unpack_limit,
}

unfoldable pub pack_insert_replace : ℕ → ℕ → Tuple → Bytes
pack_insert_replace ns insert_mode tuple =
    pack_tuple (pack_request_flags_val (pack_space [] ns) true insert_mode) tuple

-- The results, in the order in which the source names them.
insert_replace_body : Read (ℕ × Bool × ℕ × Tuple)
insert_replace_body = do
  ns ← unpack_space
  (need_ret_val, insert_mode) ← unpack_request_flags_val
  tuple ← unpack_tuple
  return (ns, need_ret_val, insert_mode, tuple)

pub unpack_insert_replace : Bytes → Result Error (ℕ × Bool × ℕ × Tuple)
unpack_insert_replace d = value_of (insert_replace_body (new_reader d))

unfoldable pub pack_select : ℕ → ℕ → ℕ → ℕ → List Tuple → Bytes
pack_select ns indexnum offset limit keys =
    pack_tuples (pack_limit (pack_offset (pack_index_num (pack_space [] ns) indexnum) offset) limit)
      keys

select_body : Read (ℕ × ℕ × ℕ × ℕ × List Tuple)
select_body = do
  ns ← unpack_space
  indexnum ← unpack_index_num
  offset ← unpack_offset
  limit ← unpack_limit
  keys ← unpack_tuples
  return (ns, indexnum, offset, limit, keys)

pub unpack_select : Bytes → Result Error (ℕ × ℕ × ℕ × ℕ × List Tuple)
unpack_select d = value_of (select_body (new_reader d))

unfoldable pub pack_op : Bytes → Ops → Bytes
pack_op w op = pack_bytes (pack_uint32 w op.field mode_default ++ (op.op ∷ [])) op.value mode_ber

unfoldable pub pack_ops : Bytes → List Ops → Bytes
pack_ops w [] = w
pack_ops w (op ∷ ops) =
    foldl pack_op (pack_uint32 w (length (op ∷ ops) % 2 ^ 32) mode_default) (op ∷ ops)

unfoldable pub pack_update : ℕ → Tuple → List Ops → Bytes
pack_update ns primary_key update_ops =
    pack_ops (pack_key (pack_request_flags_val (pack_space [] ns) true 0) primary_key) update_ops

-- `opCode, errOp := rdr.ReadByte()` under a test of `err`, which is nil there: at the end of the input
-- the operation is 0 and the loop goes on.
op_code_from : Bytes → Read ℕ
op_code_from [] r = ok (0, r)
op_code_from (b ∷ bs) r = ok (b, record r { rest = bs })

op_code : Read ℕ
op_code r = op_code_from r.rest r

op_body : Read Ops
op_body = do
  field ← unpack_uint32 mode_default
  op ← op_code
  value ← unpack_bytes mode_ber
  return (record { field = field; op = op; value = value })

-- Nothing behind the key means no operations.
ops_body : ℕ → Read (List Ops)
ops_body left = if left == 0 then return [] else (unpack_uint32 mode_default >>= read_times op_body)

update_body : Read (ℕ × Tuple × List Ops)
update_body = do
  ns ← unpack_space
  flags ← unpack_request_flags_val
  primary_key ← unpack_key
  left ← remaining
  update_ops ← ops_body left
  return (ns, primary_key, update_ops)

pub unpack_update : Bytes → Result Error (ℕ × Tuple × List Ops)
unpack_update d = value_of (update_body (new_reader d))

unfoldable pub pack_delete : ℕ → Tuple → Bytes
pack_delete ns primary_key = pack_key (pack_request_flags_val (pack_space [] ns) true 0) primary_key

delete_body : Read (ℕ × Tuple)
delete_body = do
  ns ← unpack_space
  flags ← unpack_request_flags_val
  primary_key ← unpack_key
  return (ns, primary_key)

pub unpack_delete : Bytes → Result Error (ℕ × Tuple)
unpack_delete d = value_of (delete_body (new_reader d))

unfoldable pub pack_lua : Bytes → Tuple → Bytes
pack_lua name args =
    foldl (λ w arg. pack_bytes w arg mode_ber)
      (pack_uint32 (pack_bytes (pack_uint32 [] 0 mode_default) name mode_ber) (length args % 2 ^ 32)
        mode_default)
      args

check_lua : ℕ → Read (Unit {0})
check_lua v = if v == 0 then return tt else fail not_lua

lua_body : Read (Bytes × Tuple)
lua_body = do
  v ← unpack_uint32 mode_default
  check_lua v
  proc_name ← unpack_bytes mode_ber
  args ← unpack_tuple
  return (proc_name, args)

pub unpack_lua : Bytes → Result Error (Bytes × Tuple)
unpack_lua d = value_of (lua_body (new_reader d))
