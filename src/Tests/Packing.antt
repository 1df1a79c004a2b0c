-- ===== src/Tests/Packing.antt =====
-- The packing of pkg/iproto/iproto/pack.go and pkg/octopus/pack.go, and the packets of stream.go, at
-- concrete inputs.
use activerecord.Prelude.{◌++◌, List, [], ◌∷◌, ◌≡◌, refl, arith, false, length}
use activerecord.Go.{Bytes}
use activerecord.Go.Reader.Decodes.{Decodes}
use activerecord.Iproto.Pack.{mode_ber, IsU32, pack_uint32, pack_uint64_ber, ber_loop, pack_bytes}
use activerecord.Iproto.Packet.{Packet, Writer, packet_size, write_packet, read_packet}
use activerecord.Iproto.Packet.Framing.{
  wire, HeaderFits, read_packet-wire, with_length, write_packet-wire,
}
use activerecord.Octopus.Wire.{
  Tuple, pack_field, pack_field_nums, pack_tuple, pack_tuples, packed_tuples_len,
}
use activerecord.Octopus.Wire.Lengths.{packed_tuples_len-pack_tuples}

-- 300 takes two bytes in mode BER.
two_groups : pack_uint32 [] 300 mode_ber ≡ 0x82 ∷ 0x2c ∷ []
unfolding pack_uint32 pack_uint64_ber ber_loop
two_groups = refl

abbrev word : Bytes
word = b'm' ∷ b'a' ∷ b'x' ∷ []

abbrev packet : Packet
packet = record { header = record { msg = 17; len = 3; sync = 9 }; body = word }

packet_fits : HeaderFits packet.header
packet_fits = record { msg_fits = omega arith; len_fits = omega arith; sync_fits = omega arith }

read_packet-wire_example :
    Decodes (read_packet 65536) (wire packet) (packet, packet_size packet) 100
read_packet-wire_example = read_packet-wire 65536 100 packet packet_fits refl (omega arith)

-- A buffer never fails.
abbrev buffer : Writer
buffer = record { Dest = Bytes; write = λ d b. (d ++ b, false) }

write_packet_ok : (write_packet buffer [] packet).1 ≡ false
unfolding write_packet
write_packet_ok = refl

write_packet-wire_example : (write_packet buffer [] packet).0 ≡ [] ++ wire (with_length packet)
write_packet-wire_example =
    write_packet-wire buffer (λ d. d) (λ d b _. refl) [] packet (omega arith) write_packet_ok

abbrev tuples : List Tuple
tuples = (word ∷ (1 ∷ []) ∷ []) ∷ [] ∷ []

tuples_fit : IsU32 (length (pack_tuples [] tuples))
unfolding pack_tuples pack_tuple pack_field_nums pack_field pack_bytes pack_uint32 pack_uint64_ber
    ber_loop
tuples_fit = omega arith

packed_tuples_len-pack_tuples_example : packed_tuples_len tuples ≡ length (pack_tuples [] tuples)
packed_tuples_len-pack_tuples_example = packed_tuples_len-pack_tuples tuples tuples_fit
