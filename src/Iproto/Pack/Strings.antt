-- ===== src/Iproto/Pack/Strings.antt =====
-- Byte strings behind their length, and the packers as appenders: each writes behind `w` what it
-- writes into an empty slice.
use activerecord.Prelude.{
  ℕ, ◌+◌, ◌%◌, ◌^◌, ◌≤◌, [], ◌++◌, length, ◌≡◌, refl, sym, ap, ◌∙◌, arith, append_assoc,
  length-append,
}
use activerecord.Go.{Bytes}
use activerecord.Go.Reader.Decodes.{Decodes, >>=-Decodes, read_full-Decodes}
use activerecord.Iproto.Pack.{
  PackMode, mode_ber, mode_default, IsU16, IsU32, IsU64, pack_uint16, pack_uint32, pack_uint64,
  pack_bytes, pack_string, unpack_uint16, unpack_uint32, unpack_uint64, check_length, unpack_bytes,
  unpack_string,
}
use activerecord.Iproto.Pack.Fixed.{
  unpack_uint16-Decodes, unpack_uint32-Decodes, unpack_uint64-Decodes,
}
use activerecord.Iproto.Pack.Ber.{
  encoding, pack_uint64_ber-encoding, unpack_uint16-Decodes-ber, unpack_uint32-Decodes-ber,
  unpack_uint64-Decodes-ber, length-encoding-pos,
}

pub pack_uint32-append :
    (w : Bytes) (v : ℕ) (mode : PackMode) → pack_uint32 w v mode ≡ w ++ pack_uint32 [] v mode
unfolding pack_uint32
pack_uint32-append w v mode_ber =
    pack_uint64_ber-encoding w v ∙ ap (◌++◌ w) (sym (pack_uint64_ber-encoding [] v))
pack_uint32-append w v mode_default = refl

pub pack_bytes-append :
    (w v : Bytes) (mode : PackMode) → pack_bytes w v mode ≡ w ++ pack_bytes [] v mode
unfolding pack_bytes
pack_bytes-append w v mode =
    rw (pack_uint32-append w (length v % 2 ^ 32) mode)
      (append_assoc w (pack_uint32 [] (length v % 2 ^ 32) mode) v)

module _ (v k : ℕ) where
  -- A uint16 that was packed in either mode is read back, and nothing behind it is touched.
  pub unpack_uint16-pack :
      (mode : PackMode) → IsU16 v → Decodes (unpack_uint16 mode) (pack_uint16 [] v mode) v k
  unfolding pack_uint16
  unpack_uint16-pack mode_ber h =
      rw (pack_uint64_ber-encoding [] v) (unpack_uint16-Decodes-ber v k h)
  unpack_uint16-pack mode_default h = unfold pack_uint16 in unpack_uint16-Decodes v k h

  -- A uint32 that was packed in either mode is read back, and nothing behind it is touched.
  pub unpack_uint32-pack :
      (mode : PackMode) → IsU32 v → Decodes (unpack_uint32 mode) (pack_uint32 [] v mode) v k
  unfolding pack_uint32
  unpack_uint32-pack mode_ber h =
      rw (pack_uint64_ber-encoding [] v) (unpack_uint32-Decodes-ber v k h)
  unpack_uint32-pack mode_default h = unpack_uint32-Decodes v k h

  -- A uint64 that was packed in either mode is read back, and nothing behind it is touched.
  pub unpack_uint64-pack :
      (mode : PackMode) → IsU64 v → Decodes (unpack_uint64 mode) (pack_uint64 [] v mode) v k
  unfolding pack_uint64
  unpack_uint64-pack mode_ber h =
      rw (pack_uint64_ber-encoding [] v) (unpack_uint64-Decodes-ber v k h)
  unpack_uint64-pack mode_default h = unpack_uint64-Decodes v k h

check_length-Decodes : (l k : ℕ) → l ≤ k → Decodes (check_length l) [] tt k
unfolding check_length
check_length-Decodes l k h = record { run = λ ys _. ground arith }

module _ (v : Bytes) (k : ℕ) (mode : PackMode) where
  -- Bytes that were packed in either mode are read back, when their length fits a uint32 and is not
  -- more than the size of the slice that is read, and nothing behind them is touched.
  pub unpack_bytes-pack :
      IsU32 (length v) → length v ≤ k → Decodes (unpack_bytes mode) (pack_bytes [] v mode) v k
  unfolding unpack_bytes pack_bytes
  unpack_bytes-pack h b =
      let fits : length v % 2 ^ 32 ≡ length v = omega arith in
      rw fits (
        >>=-Decodes _ (unpack_uint32-pack (length v) k mode h)
          (>>=-Decodes _ (check_length-Decodes (length v) k b) (read_full-Decodes v k)))

  pub unpack_string-pack :
      IsU32 (length v) → length v ≤ k → Decodes (unpack_string mode) (pack_string [] v mode) v k
  unfolding unpack_string pack_string
  unpack_string-pack h b =
      let fits : length v % 2 ^ 32 ≡ length v = omega arith in
      rw fits (
        >>=-Decodes _ (unpack_uint32-pack (length v) k mode h)
          (>>=-Decodes _ (check_length-Decodes (length v) k b) (read_full-Decodes v k)))

pub length-pack_uint32 : (v : ℕ) → length (pack_uint32 [] v mode_default) ≡ 4
unfolding pack_uint32
length-pack_uint32 v = refl

-- In mode BER the length itself takes one byte at least.
pub length-pack_bytes-ber : (v : Bytes) → length v + 1 ≤ length (pack_bytes [] v mode_ber)
unfolding pack_bytes pack_uint32
length-pack_bytes-ber v = omega (
  arith,
  ap length (pack_uint64_ber-encoding [] (length v % 2 ^ 32)),
  length-append (pack_uint32 [] (length v % 2 ^ 32) mode_ber) v,
  length-encoding-pos (length v % 2 ^ 32),
)

pub length-pack_bytes :
    (v : Bytes)
    → length (pack_bytes [] v mode_ber) ≡ length (encoding (length v % 2 ^ 32)) + length v
unfolding pack_bytes pack_uint32
length-pack_bytes v = omega (
  arith,
  ap length (pack_uint64_ber-encoding [] (length v % 2 ^ 32)),
  length-append (pack_uint32 [] (length v % 2 ^ 32) mode_ber) v,
)

pub pack_bytes-split :
    (v : Bytes) (mode : PackMode)
    → pack_bytes [] v mode ≡ pack_uint32 [] (length v % 2 ^ 32) mode ++ v
unfolding pack_bytes
pack_bytes-split v mode = refl
