-- ===== src/Iproto/Pack/Short.antt =====
-- A number of fixed width in an input that is too short for it.
use activerecord.Prelude.{ℕ, ◌<◌, [], ◌∷◌, length, ◌≡◌, refl, arith}
use activerecord.Go.{ok, err, Bytes, eof}
use activerecord.Go.Reader.{at, ◌>>=◌, return, read}
use activerecord.Iproto.Pack.{mode_default, little_endian, unpack_uint32}

-- A fixed-width read at the end of the input is refused, but one that finds one to three bytes is
-- not: the missing high bytes count as zeros, and the input is used up.
pub unpack_uint32_short :
    (b : ℕ) (bs : Bytes) (k : ℕ)
    → length bs < 3
    → (unpack_uint32 mode_default (at [] k) ≡ err eof)
      × (unpack_uint32 mode_default (at (b ∷ bs) k) ≡ ok (little_endian (b ∷ bs), at [] k))
unfolding unpack_uint32 read ◌>>=◌ return little_endian
unpack_uint32_short b [] k h = (refl, ground arith)
unpack_uint32_short b (c ∷ []) k h = (refl, ground arith)
unpack_uint32_short b (c ∷ d ∷ []) k h = (refl, ground arith)
unpack_uint32_short b (c ∷ d ∷ e ∷ bs) k h = absurd (omega arith)
