-- ===== src/Octopus/Wire.antt =====
-- pkg/octopus/pack.go and the types of types.go: fields, tuples, keys, numbers and flags of a
-- request. A field is a byte string; a tuple and a key are lists of fields. `len` of a slice is
-- converted to uint32 where the source does.
pub mod Lengths
pub mod RoundTrip
pub mod Numbers
pub mod Flags
pub mod Text
use activerecord.Prelude.{
  ℕ, ◌+◌, ◌%◌, ◌^◌, bit_and, bit_or, bit_xor, List, [], ◌∷◌, length, foldl, Bool, true, false, ltb,
  ◌==◌, if◌then◌else◌,
}
use activerecord.Go.{Bytes}
use activerecord.Go.Reader.{Read, ◌>>=◌, return, read_times}
use activerecord.Iproto.Pack.{
  mode_default, mode_ber, PackMode, pack_uint8, pack_uint32, pack_bytes, unpack_uint32,
  unpack_bytes,
}

abbrev pub Tuple : Type 0
Tuple = List Bytes

-- `op` is an OpCode.
pub record Ops : Type 0 where
  pub field : ℕ
  pub op : ℕ
  pub value : Bytes

pub byte_len : ℕ → ℕ
byte_len length =
    if ltb length (2 ^ 7)
    then (1 + length) % 2 ^ 32
    else if ltb length (2 ^ 14)
    then (2 + length) % 2 ^ 32
    else if ltb length (2 ^ 21)
    then (3 + length) % 2 ^ 32
    else if ltb length (2 ^ 28)
    then (4 + length) % 2 ^ 32
    else (5 + length) % 2 ^ 32

pub packed_field_len : Bytes → ℕ
packed_field_len field = byte_len (length field % 2 ^ 32)

pub packed_tuple_len : Tuple → ℕ
packed_tuple_len = foldl (λ len k. (len + packed_field_len k) % 2 ^ 32) 4

pub packed_keys_len : Tuple → ℕ
packed_keys_len = foldl (λ len k. (len + packed_field_len k) % 2 ^ 32) 4

pub packed_key_len : Tuple → ℕ
unfolding packed_keys_len
packed_key_len = packed_keys_len

pub packed_tuples_len : List Tuple → ℕ
packed_tuples_len = foldl (λ len kt. (len + packed_tuple_len kt) % 2 ^ 32) 4

-- OpsLen and OpFieldNumLen are 4, OpOpLen is 1.
pub packed_update_ops_len : List Ops → ℕ
packed_update_ops_len =
    foldl (λ len op. (len + (4 + 1 + byte_len (length op.value % 2 ^ 32))) % 2 ^ 32) 4

unfoldable pub pack_field_nums : Bytes → ℕ → Bytes
pack_field_nums w cnt = pack_uint32 w cnt mode_default

pub unpack_field_nums : Read ℕ
unpack_field_nums = unpack_uint32 mode_default

unfoldable pub pack_field : Bytes → Bytes → Bytes
pack_field w field = pack_bytes w field mode_ber

pub unpack_field : Read Bytes
unpack_field = unpack_bytes mode_ber

unfoldable pub pack_key : Bytes → Tuple → Bytes
pack_key w key = foldl pack_field (pack_uint32 w (length key % 2 ^ 32) mode_default) key

pub unpack_key : Read Tuple
unpack_key = do n ← unpack_uint32 mode_default; read_times unpack_field n

unfoldable pub pack_tuple : Bytes → Tuple → Bytes
pack_tuple w keys = foldl pack_field (pack_field_nums w (length keys % 2 ^ 32)) keys

pub unpack_tuple : Read Tuple
unpack_tuple = do n ← unpack_field_nums; read_times unpack_field n

unfoldable pub pack_tuples : Bytes → List Tuple → Bytes
pack_tuples w keys = foldl pack_tuple (pack_uint32 w (length keys % 2 ^ 32) mode_default) keys

pub unpack_tuples : Read (List Tuple)
unpack_tuples = do n ← unpack_uint32 mode_default; read_times unpack_tuple n

unfoldable pub pack_space : Bytes → ℕ → Bytes
pack_space w space = pack_uint32 w space mode_default

pub unpack_space : Read ℕ
unpack_space = unpack_uint32 mode_default

unfoldable pub pack_index_num : Bytes → ℕ → Bytes
pack_index_num w indexnum = pack_uint32 w indexnum mode_default

pub unpack_index_num : Read ℕ
unpack_index_num = unpack_uint32 mode_default

-- `mode` is an InsertMode, a uint8; a shift of a uint32 past its width gives 0.
abbrev pub request_flags : Bool → ℕ → ℕ
request_flags ret mode =
    let flags : ℕ = if ret then 1 else 0 in
    if mode == 0 then flags else bit_or flags (2 ^ mode % 2 ^ 32)

unfoldable pub pack_request_flags_val : Bytes → Bool → ℕ → Bytes
pack_request_flags_val w ret mode = pack_uint32 w (request_flags ret mode) mode_default

-- `InsertMode(flags)` keeps the low byte.
abbrev pub split_flags : ℕ → Bool × ℕ
split_flags flags =
    if bit_and flags 1 == 1 then (true, bit_xor flags 1 % 2 ^ 8) else (false, flags % 2 ^ 8)

pub unpack_request_flags_val : Read (Bool × ℕ)
unpack_request_flags_val = do flags ← unpack_uint32 mode_default; return (split_flags flags)

unfoldable pub pack_delete_flags_val : Bytes → Bool → Bytes
pack_delete_flags_val w ret = pack_uint32 w (if ret then 1 else 0) mode_default

unfoldable pub pack_limit : Bytes → ℕ → Bytes
pack_limit w limit = pack_uint32 w (if limit == 0 then 0xffffffff else limit) mode_default

pub unpack_limit : Read ℕ
unpack_limit = do
  limit ← unpack_uint32 mode_default
  return (if limit == 0xffffffff then 0 else limit)

unfoldable pub pack_offset : Bytes → ℕ → Bytes
pack_offset w offset = pack_uint32 w offset mode_default

pub unpack_offset : Read ℕ
unpack_offset = unpack_uint32 mode_default

pub bool_to_uint : Bool → ℕ
bool_to_uint v = if v then 1 else 0

pub uint_to_bool : ℕ → Bool
uint_to_bool v = if v == 0 then false else true

unfoldable pub pack_bool : Bytes → Bool → PackMode → Bytes
pack_bool w v mode = if v then pack_uint8 w 1 mode else pack_uint8 w 0 mode
