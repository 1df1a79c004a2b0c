-- ===== src/Iproto/Pack/Fixed.antt =====
-- The integers of fixed width (ModeDefault): little-endian bytes.
use activerecord.Prelude.{ℕ, ◌/◌, ◌%◌, ◌^◌, [], ◌∷◌, arith, subst}
use activerecord.Go.Reader.Decodes.{Decodes, >>=-return-Decodes, read-Decodes, read_byte-Decodes}
use activerecord.Iproto.Pack.{
  IsU16, IsU32, IsU64, pack_uint8, pack_uint16, pack_uint32, pack_uint64, unpack_uint8,
  unpack_uint16, unpack_uint32, unpack_uint64, mode_default, little_endian, PackMode,
}

pub unpack_uint8-Decodes :
    (v k : ℕ) (mode : PackMode) → Decodes (unpack_uint8 mode) (pack_uint8 [] v mode) v k
unfolding unpack_uint8 pack_uint8
unpack_uint8-Decodes v k mode = read_byte-Decodes v k

module _ (v k : ℕ) where
  pub unpack_uint16-Decodes :
      IsU16 v → Decodes (unpack_uint16 mode_default) (pack_uint16 [] v mode_default) v k
  unfolding unpack_uint16 pack_uint16 little_endian
  unpack_uint16-Decodes h =
      subst (λ x. Decodes (unpack_uint16 mode_default) (pack_uint16 [] v mode_default) x k)
        (omega arith) (>>=-return-Decodes little_endian (read-Decodes _ (v / 2 ^ 8 % 256 ∷ []) k))

  pub unpack_uint32-Decodes :
      IsU32 v → Decodes (unpack_uint32 mode_default) (pack_uint32 [] v mode_default) v k
  unfolding unpack_uint32 pack_uint32 little_endian
  unpack_uint32-Decodes h =
      subst (λ x. Decodes (unpack_uint32 mode_default) (pack_uint32 [] v mode_default) x k)
        (omega arith)
        (>>=-return-Decodes little_endian
          (read-Decodes _ (v / 2 ^ 8 % 256 ∷ v / 2 ^ 16 % 256 ∷ v / 2 ^ 24 % 256 ∷ []) k))

  pub unpack_uint64-Decodes :
      IsU64 v → Decodes (unpack_uint64 mode_default) (pack_uint64 [] v mode_default) v k
  unfolding unpack_uint64 pack_uint64 little_endian
  unpack_uint64-Decodes h =
      subst (λ x. Decodes (unpack_uint64 mode_default) (pack_uint64 [] v mode_default) x k)
        (omega arith)
        (>>=-return-Decodes little_endian (
          read-Decodes _
            (v / 2 ^ 8 % 256
              ∷ v / 2 ^ 16 % 256
              ∷ v / 2 ^ 24 % 256
              ∷ v / 2 ^ 32 % 256
              ∷ v / 2 ^ 40 % 256
              ∷ v / 2 ^ 48 % 256
              ∷ v / 2 ^ 56 % 256
              ∷ [])
            k))
