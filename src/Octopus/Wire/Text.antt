-- ===== src/Octopus/Wire/Text.antt =====
-- PackString and UnpackString of pkg/octopus/pack.go, which take a string as the whole of its bytes.
use activerecord.Prelude.{
  ℕ, suc, ◌-◌, [], ◌∷◌, ◌++◌, length, ◌==◌, if◌then◌else◌, ◌≡◌, refl, arith, ap, append-nil, take,
  drop,
}
use activerecord.Go.{ok, Bytes}
use activerecord.Go.Reader.{Read, ◌>>=◌, return, remaining, read}

pub pack_text : Bytes → Bytes → Bytes
pack_text w field = w ++ field

text_of : ℕ → Read Bytes
text_of n = if n == 0 then return [] else read n

-- `r.Len()` bytes, all that is left, so that the read does not come short.
pub unpack_text : Read Bytes
unpack_text = remaining >>= text_of

take_all : (bs : Bytes) → take (length bs) bs ≡ bs
take_all [] = refl
take_all (b ∷ bs) = ap (◌∷◌ b) (take_all bs)

drop_all : (bs : Bytes) → drop (length bs) bs ≡ []
drop_all [] = refl
drop_all (b ∷ bs) = drop_all bs

-- A string that was packed into an empty slice is read back, the empty one too, and nothing is left.
pub unpack_text-pack :
    (field : Bytes) (k : ℕ)
    → unpack_text (record { rest = pack_text [] field; size = k })
      ≡ ok (field, record { rest = []; size = k })
unfolding unpack_text text_of pack_text ◌>>=◌ return remaining read
unpack_text-pack [] k = refl
unpack_text-pack (b ∷ bs) k =
    let got = take_all (b ∷ bs) in
    let rest = drop_all (b ∷ bs) in
    let none_missing : suc (length bs) - suc (length bs) ≡ 0 = omega arith in
    ground (arith, got, rest, none_missing, append-nil (b ∷ bs))
