-- ===== src/Iproto/Packet.antt =====
-- pkg/iproto/iproto/stream.go, reader.go and the packet functions of writer.go: a packet is a header
-- of three uint32 in little-endian order and a body. The source of a StreamReader is what it will
-- deliver, as a reader; the destination of a StreamWriter is a parameter.
pub mod Framing
use activerecord.Prelude.{
  ℕ, ◌+◌, ◌%◌, ◌/◌, ◌^◌, List, [], ◌∷◌, ◌++◌, length, take, drop, replicate, Bool, true, false, ltb,
  if◌then◌else◌,
}
use activerecord.Go.{Result, ok, err, panic, Bytes, Error, size_limit}
use activerecord.Go.Reader.{Reader, Read, ◌>>=◌, ◌>>◌, return, fail, read_full}
use activerecord.Iproto.Pack.{little_endian}

pub record Header : Type 0 where
  pub msg : ℕ
  pub len : ℕ
  pub sync : ℕ

pub record Packet : Type 0 where
  pub header : Header
  pub body : Bytes

-- `binary.LittleEndian.PutUint32`
put_uint32 : ℕ → Bytes
put_uint32 v = v % 256 ∷ v / 2 ^ 8 % 256 ∷ v / 2 ^ 16 % 256 ∷ v / 2 ^ 24 % 256 ∷ []

pub header_bytes : ℕ → ℕ → ℕ → Bytes
unfolding put_uint32
header_bytes msg len sync = put_uint32 msg ++ (put_uint32 len ++ put_uint32 sync)

pub packet_size : Packet → ℕ
packet_size p = length p.body + 12

-- A slice whose capacity is its length: the packet goes to its front, or does not fit.
pub put_packet : Bytes → Packet → Result Error Bytes
put_packet p pkt =
    if ltb (length p) (length pkt.body + 12)
    then panic
    else ok (
        header_bytes pkt.header.msg pkt.header.len pkt.header.sync
        ++ (pkt.body ++ drop (length pkt.body + 12) p))

pub marshal_packet : Packet → Result Error Bytes
marshal_packet pkt = put_packet (replicate (packet_size pkt) 0) pkt

-- io.Writer: a write leaves the destination changed, and says whether it failed.
pub record Writer : Type 1 where
  pub Dest : Type 0
  pub write : Dest → Bytes → Dest × Bool

-- The length in the header is that of the body, whatever `p.header.len` says.
unfoldable pub write_packet : (w : Writer) → w.Dest → Packet → w.Dest × Bool
write_packet w dest p =
    let (dest', failed) =
      w.write dest (header_bytes p.header.msg (length p.body % 2 ^ 32) p.header.sync) in
    if failed then (dest', true) else w.write dest' p.body

header_of : Bytes → Header
header_of buf = record {
  msg = little_endian (take 4 buf);
  len = little_endian (take 4 (drop 4 buf));
  sync = little_endian (take 4 (drop 8 buf));
}

read_header : Read Header
read_header = do buf ← read_full 12; return (header_of buf)

check_limit : ℕ → ℕ → Read (Unit {0})
check_limit size_limit_of len = if ltb size_limit_of len then fail size_limit else return tt

-- The packet, and what LastRead says then.
abbrev read_result : Header → Bytes → Packet × ℕ
read_result header body = (record { header = header; body = body }, 12 + length body)

read_body : ℕ → Header → Read (Packet × ℕ)
read_body limit header = do
  check_limit limit header.len
  body ← read_full header.len
  return (read_result header body)

pub read_packet : ℕ → Read (Packet × ℕ)
read_packet limit = do header ← read_header; read_body limit header

abbrev pub default_packet_limit : ℕ
default_packet_limit = 2 ^ 16
