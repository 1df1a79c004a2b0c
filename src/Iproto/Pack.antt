-- ===== src/Iproto/Pack.antt =====
-- pkg/iproto/iproto/pack.go: integers and byte strings in the two encoding modes. Integers are ℕ
-- below 2 ^ w, with the wrap-around written out; `v & 0x7f` is `v % 128`, `v >> 7` is `v / 128`.
-- The functions that go through reflection (packOne, packStruct, packSlice and their counterparts)
-- are not modelled.
pub mod Fixed
pub mod Ber
pub mod Strings
pub mod Short
use activerecord.Prelude.{
  ℕ, zero, suc, ◌+◌, ◌*◌, ◌/◌, ◌%◌, ◌^◌, ◌≤◌, ◌<◌, bit_or, List, [], ◌∷◌, ◌++◌, length, Bool, ltb,
  ◌==◌, if◌then◌else◌,
}
use activerecord.Go.{Result, ok, err, Bytes, Error, invalid_ber, invalid_length}
use activerecord.Go.Reader.{Reader, Read, ◌>>=◌, ◌>>◌, return, read, read_full, read_byte}

pub data PackMode : Type 0 where
  mode_default mode_ber : PackMode

abbrev pub IsU8 : ℕ → Type 0
IsU8 v = v < 2 ^ 8

abbrev pub IsU16 : ℕ → Type 0
IsU16 v = v < 2 ^ 16

abbrev pub IsU32 : ℕ → Type 0
IsU32 v = v < 2 ^ 32

abbrev pub IsU64 : ℕ → Type 0
IsU64 v = v < 2 ^ 64

unfoldable pub pack_uint8 : Bytes → ℕ → PackMode → Bytes
pack_uint8 w v mode = w ++ (v ∷ [])

-- The loop of packUint64BER with `suc n` for the rounds that are left, so that `n` is the index
-- that it writes; `out` is `buf[n+1:]`. The eight low bits of `v & 0x7f` are all of it.
unfoldable pub ber_loop : ℕ → ℕ → Bytes → Bytes
ber_loop zero v out = out
ber_loop (suc n) v out =
    let group = v % 128 in
    let rest = ber_loop n (v / 128) ((if n == 9 then group else bit_or group 0x80) ∷ out) in
    if ltb 0 v then rest else out

unfoldable pub pack_uint64_ber : Bytes → ℕ → Bytes
pack_uint64_ber w v = if v == 0 then w ++ (0 ∷ []) else w ++ ber_loop 10 v []

unfoldable pub pack_uint16 : Bytes → ℕ → PackMode → Bytes
pack_uint16 w v mode_ber = pack_uint64_ber w v
pack_uint16 w v mode_default = w ++ (v % 256 ∷ v / 2 ^ 8 % 256 ∷ [])

unfoldable pub pack_uint32 : Bytes → ℕ → PackMode → Bytes
pack_uint32 w v mode_ber = pack_uint64_ber w v
pack_uint32 w v mode_default =
    w ++ (v % 256 ∷ v / 2 ^ 8 % 256 ∷ v / 2 ^ 16 % 256 ∷ v / 2 ^ 24 % 256 ∷ [])

unfoldable pub pack_uint64 : Bytes → ℕ → PackMode → Bytes
pack_uint64 w v mode_ber = pack_uint64_ber w v
pack_uint64 w v mode_default =
    w
    ++ (v % 256
        ∷ v / 2 ^ 8 % 256
        ∷ v / 2 ^ 16 % 256
        ∷ v / 2 ^ 24 % 256
        ∷ v / 2 ^ 32 % 256
        ∷ v / 2 ^ 40 % 256
        ∷ v / 2 ^ 48 % 256
        ∷ v / 2 ^ 56 % 256
        ∷ [])

-- `uint32(len(v))`
unfoldable pub pack_bytes : Bytes → Bytes → PackMode → Bytes
pack_bytes w v mode = pack_uint32 w (length v % 2 ^ 32) mode ++ v

-- PackString is PackBytes over the bytes of the string.
unfoldable pub pack_string : Bytes → Bytes → PackMode → Bytes
pack_string w v mode = pack_uint32 w (length v % 2 ^ 32) mode ++ v

pub unpack_uint8 : PackMode → Read ℕ
unpack_uint8 mode = read_byte

-- `v <<= 7; v |= uint64(b & 0x7f)`: the low seven bits of the shifted value are clear.
abbrev pub add_group : ℕ → ℕ → ℕ
add_group v b = v * 128 % 2 ^ 64 + b % 128

-- The loop of unpackBER with the rounds that are left. Every byte that it misses ends in the one
-- error of this function. `b & 0x80 == 0` is a test of the bit of weight 128.
pub unpack_ber_loop : ℕ → ℕ → Bytes → Reader → Result Error (ℕ × Reader)
unpack_ber_loop zero v bs r = err invalid_ber
unpack_ber_loop (suc n) v [] r = err invalid_ber
unpack_ber_loop (suc n) v (b ∷ bs) r =
    let more = unpack_ber_loop n (add_group v b) bs r in
    if b / 128 % 2 == 0 then ok (add_group v b, record r { rest = bs }) else more

pub unpack_ber : ℕ → Read ℕ
unpack_ber value_bits r = unpack_ber_loop (value_bits / 7 + 1) 0 r.rest r

-- What the bytes of a buffer say in little-endian order.
unfoldable pub little_endian : Bytes → ℕ
little_endian [] = 0
little_endian (b ∷ bs) = b + 256 * little_endian bs

pub unpack_uint16 : PackMode → Read ℕ
unpack_uint16 mode_ber = do v ← unpack_ber 16; return (v % 2 ^ 16)
unpack_uint16 mode_default = do bs ← read 2; return (little_endian bs)

unfoldable pub unpack_uint32 : PackMode → Read ℕ
unpack_uint32 mode_ber = do v ← unpack_ber 32; return (v % 2 ^ 32)
unpack_uint32 mode_default = do bs ← read 4; return (little_endian bs)

pub unpack_uint64 : PackMode → Read ℕ
unpack_uint64 mode_ber = unpack_ber 64
unpack_uint64 mode_default = do bs ← read 8; return (little_endian bs)

-- The length is compared with the size of the whole packet, not with what is left of it.
check_length : ℕ → Reader → Result Error (Unit {0} × Reader)
check_length l r = if ltb r.size l then err invalid_length else ok (tt, r)

pub unpack_bytes : PackMode → Read Bytes
unpack_bytes mode = do l ← unpack_uint32 mode; check_length l; read_full l

pub unpack_string : PackMode → Read Bytes
unpack_string mode = do l ← unpack_uint32 mode; check_length l; read_full l
