-- ===== src/Iproto/Packet/Framing.antt =====
-- Packets that were written are read back.
use activerecord.Prelude.{
  ℕ, ◌+◌, ◌%◌, ◌^◌, ◌≤◌, ◌<◌, [], ◌++◌, length, drop, replicate, length-replicate, drop-replicate,
  true, false, ltb, ◌≡◌, sym, ◌∙◌, arith, append-nil, append_assoc, subst,
}
use activerecord.Go.{ok, err, Bytes, size_limit}
use activerecord.Go.Reader.{Reader, ◌>>=◌, fail, read_full, at}
use activerecord.Go.Reader.Decodes.{
  Decodes, >>=-Decodes, >>=-return-Decodes, read_full-Decodes, return-Decodes, step-Decodes,
}
use activerecord.Iproto.Pack.{little_endian, IsU32}
use activerecord.Iproto.Packet.{
  Header, Packet, Writer, header_bytes, packet_size, put_packet, marshal_packet, write_packet,
  header_of, read_header, read_body, read_result, check_limit, read_packet,
}

-- The bytes of a packet.
pub wire : Packet → Bytes
wire p = header_bytes p.header.msg p.header.len p.header.sync ++ p.body

pub record HeaderFits (h : Header) : Type 0 where
  pub msg_fits : IsU32 h.msg
  pub len_fits : IsU32 h.len
  pub sync_fits : IsU32 h.sync

header_of-bytes : (h : Header) → HeaderFits h → header_of (header_bytes h.msg h.len h.sync) ≡ h
unfolding header_of header_bytes little_endian
header_of-bytes h fits = ground arith

read_header-Decodes :
    (h : Header) (k : ℕ) → HeaderFits h → Decodes read_header (header_bytes h.msg h.len h.sync) h k
unfolding read_header header_bytes
read_header-Decodes h k fits =
    subst (λ x. Decodes read_header (header_bytes h.msg h.len h.sync) x k) (header_of-bytes h fits)
      (>>=-return-Decodes header_of (read_full-Decodes (header_bytes h.msg h.len h.sync) k))

check_limit-Decodes : (limit n k : ℕ) → n ≤ limit → Decodes (check_limit limit n) [] tt k
unfolding check_limit
check_limit-Decodes limit n k h =
    let small : ltb limit n ≡ false = ground arith in rw small (return-Decodes tt)

read_body-Decodes :
    (limit k : ℕ) (h : Header) (body : Bytes)
    → h.len ≡ length body
    → length body ≤ limit
    → Decodes (read_body limit h) body (read_result h body) k
unfolding read_body
read_body-Decodes limit k h body e within =
    >>=-Decodes _ (check_limit-Decodes limit h.len k (omega arith)) (
      >>=-return-Decodes (read_result h)
        (subst (λ n. Decodes (read_full n) body body k) (sym e) (read_full-Decodes body k)))

-- A packet whose header counts its body and that is within the limit is read back from its bytes,
-- whatever follows them, and the reader has read as many bytes as PacketSize says.
pub read_packet-wire :
    (limit k : ℕ) (p : Packet)
    → HeaderFits p.header
    → p.header.len ≡ length p.body
    → length p.body ≤ limit
    → Decodes (read_packet limit) (wire p) (p, packet_size p) k
unfolding read_packet wire packet_size
read_packet-wire limit k p fits e within =
    subst (λ n. Decodes (read_packet limit) (wire p) (p, n) k) (omega arith)
      (>>=-Decodes _ (read_header-Decodes p.header k fits)
        (read_body-Decodes limit k p.header p.body e within))

read_body_over_limit :
    (limit : ℕ) (h : Header) (r : Reader) → limit < h.len → read_body limit h r ≡ err size_limit
unfolding read_body check_limit fail ◌>>=◌
read_body_over_limit limit h r over = let large : ltb limit h.len ≡ true = ground arith in rw large

-- A header that announces a body over the limit is refused before any of the body is read.
pub read_packet_over_limit :
    (limit k : ℕ) (h : Header) (rest : Bytes)
    → HeaderFits h
    → limit < h.len
    → 12 + length rest ≤ k
    → read_packet limit (at (header_bytes h.msg h.len h.sync ++ rest) k) ≡ err size_limit
unfolding read_packet header_bytes
read_packet_over_limit limit k h rest fits over room =
    step-Decodes _ rest (read_header-Decodes h k fits) (omega arith)
    ∙ read_body_over_limit limit h (at rest k) over

-- MarshalPacket never panics, and writes the header as it is and the body.
pub marshal_packet-wire : (p : Packet) → marshal_packet p ≡ ok (wire p)
unfolding marshal_packet put_packet wire packet_size
marshal_packet-wire p =
    let n = length p.body + 12 in
    let long = length-replicate {A = ℕ} n 0 in
    let room : ltb (length (replicate {A = ℕ} n 0)) n ≡ false = ground arith in
    let used : drop n (replicate {A = ℕ} n 0) ≡ [] = drop-replicate {A = ℕ} n 0 in
    rw (room, used, append-nil p.body)

-- What WritePacket sends: the header with the length of the body in it.
abbrev pub with_length : Packet → Packet
with_length p = record {
  header = record { msg = p.header.msg; len = length p.body; sync = p.header.sync };
  body = p.body;
}

module _ (w : Writer) (written : w.Dest → Bytes)
    (appends : (d : w.Dest) (b : Bytes)
      → (w.write d b).1 ≡ false
      → written (w.write d b).0 ≡ written d ++ b) where
  -- With a destination whose successful writes append, WritePacket of a body whose length fits a
  -- uint32, when it returns no error, has appended the packet with its length put right.
  pub write_packet-wire :
      (d : w.Dest) (p : Packet)
      → IsU32 (length p.body)
      → (write_packet w d p).1 ≡ false
      → written (write_packet w d p).0 ≡ written d ++ wire (with_length p)
  unfolding write_packet wire
  write_packet-wire d p small =
      let fits : length p.body % 2 ^ 32 ≡ length p.body = omega arith in
      let head = header_bytes p.header.msg (length p.body) p.header.sync in
      rw fits (
        ground (
          arith,
          appends d head,
          appends (w.write d head).0 p.body,
          append_assoc (written d) head p.body,
        ))
