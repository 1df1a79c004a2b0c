-- ===== src/Iproto/Pack/Ber.antt =====
-- The variable-length integers (ModeBER): groups of seven bits, the highest first, with the top bit
-- set on every byte but the last.
use activerecord.Prelude.{
  ℕ, zero, suc, ◌+◌, ◌-◌, All-append, ◌/◌, ◌%◌, ◌^◌, ◌≤◌, ◌<◌, [], ◌∷◌, ◌++◌, length, ◌≡◌, refl,
  ◌∙◌, arith, append_assoc, ltb, if◌then◌else◌, ◌==◌, bit_or, All, length-append, subst, Bool, true,
  ◌&&◌,
}
use activerecord.Go.{ok, Bytes, IsByte}
use activerecord.Go.Reader.{at, Reader}
use activerecord.Go.Reader.Decodes.{Decodes, >>=-return-Decodes}
use activerecord.Iproto.Pack.{
  ber_loop, pack_uint64_ber, unpack_ber_loop, unpack_ber, add_group, IsU64, IsU32, IsU16,
  unpack_uint16, unpack_uint32, unpack_uint64, mode_ber,
}

module _ (f g : ℕ → ℕ) where
  agree_below : ℕ → Bool
  agree_below zero = true
  agree_below (suc n) = f n == g n && agree_below n

  agree_below_lem : (n : ℕ) → agree_below n ≡ true → (i : ℕ) → i < n → f i ≡ g i
  unfolding agree_below
  agree_below_lem zero e i h = absurd (omega arith)
  agree_below_lem (suc n) e i h = ground (arith, agree_below_lem n (ground arith) i)

pub set_top_bit : (b : ℕ) → b < 128 → bit_or b 0x80 ≡ b + 128
unfolding agree_below
set_top_bit = agree_below_lem _ _ 128 refl

-- What stands before the last byte of the encoding of a number below 128 ^ (k + 1), given the
-- number without its last group.
groups : ℕ → ℕ → Bytes
groups zero v = []
groups (suc k) v =
    let rest = groups k (v / 128) in if ltb 0 v then rest ++ ((v % 128 + 128) ∷ []) else []

-- The format in plain arithmetic.
pub encoding : ℕ → Bytes
encoding v = groups 9 (v / 128) ++ (v % 128 ∷ [])

ber_loop-groups : (k v : ℕ) (out : Bytes) → k ≤ 9 → ber_loop k v out ≡ groups k v ++ out
unfolding ber_loop groups
ber_loop-groups zero v out h = refl
ber_loop-groups (suc k) v out h = ground (
  arith,
  set_top_bit (v % 128),
  ber_loop-groups k (v / 128) ((v % 128 + 128) ∷ out),
  append_assoc (groups k (v / 128)) ((v % 128 + 128) ∷ []) out,
)

pub pack_uint64_ber-encoding : (w : Bytes) (v : ℕ) → pack_uint64_ber w v ≡ w ++ encoding v
unfolding pack_uint64_ber encoding groups ber_loop
pack_uint64_ber-encoding w v = ground (arith, ber_loop-groups 9 (v / 128) ((v % 128) ∷ []))

-- One round on a byte with the top bit set, and on a last byte.
inner_round :
    (v s : ℕ) (tail : Bytes) (r : Reader)
    → v < 2 ^ 64
    → unpack_ber_loop (suc s) (v / 128) ((v % 128 + 128) ∷ tail) r ≡ unpack_ber_loop s v tail r
unfolding unpack_ber_loop
inner_round v s tail r h =
    let back : add_group (v / 128) (v % 128 + 128) ≡ v = omega arith in ground (arith, back)

last_round :
    (v s : ℕ) (tail : Bytes) (r : Reader)
    → v < 2 ^ 64
    → unpack_ber_loop (suc s) (v / 128) (v % 128 ∷ tail) r ≡ ok (v, record r { rest = tail })
unfolding unpack_ber_loop
last_round v s tail r h =
    let back : add_group (v / 128) (v % 128) ≡ v = omega arith in ground (arith, back)

-- Reading the groups that stand before the last byte, with s rounds to spare.
unpack_ber_loop-groups :
    (k v n s : ℕ) (tail : Bytes) (r : Reader)
    → v < 128 ^ k
    → v < 2 ^ 64
    → n ≡ length (groups k v) + s
    → unpack_ber_loop n 0 (groups k v ++ tail) r ≡ unpack_ber_loop s v tail r
unfolding groups
unpack_ber_loop-groups zero v n s tail r h b e =
    let p : v ≡ 0 = omega arith in let q : n ≡ s = omega arith in cc
unpack_ber_loop-groups (suc k) v n s tail r h b e = ground (
  arith,
  inner_round v s tail r,
  append_assoc (groups k (v / 128)) ((v % 128 + 128) ∷ []) tail,
  length-append (groups k (v / 128)) ((v % 128 + 128) ∷ []),
  unpack_ber_loop-groups k (v / 128) n (suc s) ((v % 128 + 128) ∷ tail) r,
)

length-groups : (k v j : ℕ) → v < 128 ^ j → length (groups k v) ≤ j
unfolding groups
length-groups zero v j h = omega arith
length-groups (suc k) v zero h = ground arith
length-groups (suc k) v (suc j) h = ground (
  arith,
  length-append (groups k (v / 128)) ((v % 128 + 128) ∷ []),
  length-groups k (v / 128) j (omega arith),
)

-- A number of j + 1 groups at most is read back within j + 1 rounds.
unpack_ber-encoding :
    (v bits : ℕ) (ys : Bytes) (k : ℕ)
    → v < 2 ^ 64
    → v / 128 < 128 ^ (bits / 7)
    → unpack_ber bits (at (encoding v ++ ys) k) ≡ ok (v, at ys k)
unfolding unpack_ber encoding
unpack_ber-encoding v bits ys k h b =
    let front = groups 9 (v / 128) in
    let short = length-groups 9 (v / 128) (bits / 7) b in
    rw (append_assoc front (v % 128 ∷ []) ys) (
      unpack_ber_loop-groups 9 (v / 128) (bits / 7 + 1) (suc (bits / 7 - length front))
        (v % 128 ∷ ys) _ (omega arith) (omega arith) (omega arith)
      ∙ last_round v (bits / 7 - length front) ys _ h)

unpack_ber-Decodes :
    (v bits : ℕ) (k : ℕ)
    → v < 2 ^ 64
    → v / 128 < 128 ^ (bits / 7)
    → Decodes (unpack_ber bits) (encoding v) v k
unpack_ber-Decodes v bits k h b = record { run = λ ys _. unpack_ber-encoding v bits ys k h b }

module _ (v k : ℕ) where
  pub unpack_uint16-Decodes-ber : IsU16 v → Decodes (unpack_uint16 mode_ber) (encoding v) v k
  unfolding unpack_uint16
  unpack_uint16-Decodes-ber h =
      subst (λ x. Decodes (unpack_uint16 mode_ber) (encoding v) x k) (omega arith)
        (>>=-return-Decodes (λ x. x % 2 ^ 16)
          (unpack_ber-Decodes v 16 k (omega arith) (omega arith)))

  pub unpack_uint32-Decodes-ber : IsU32 v → Decodes (unpack_uint32 mode_ber) (encoding v) v k
  unfolding unpack_uint32
  unpack_uint32-Decodes-ber h =
      subst (λ x. Decodes (unpack_uint32 mode_ber) (encoding v) x k) (omega arith)
        (>>=-return-Decodes (λ x. x % 2 ^ 32)
          (unpack_ber-Decodes v 32 k (omega arith) (omega arith)))

  pub unpack_uint64-Decodes-ber : IsU64 v → Decodes (unpack_uint64 mode_ber) (encoding v) v k
  unfolding unpack_uint64
  unpack_uint64-Decodes-ber h = unpack_ber-Decodes v 64 k (omega arith) (omega arith)

one_le_pow : (j : ℕ) → 1 ≤ 128 ^ j
one_le_pow zero = omega arith
one_le_pow (suc j) = omega (arith, one_le_pow j)

length-groups-ge : (k v j : ℕ) → 128 ^ j ≤ v → j < k → j < length (groups k v)
unfolding groups
length-groups-ge zero v j b h = absurd (omega arith)
length-groups-ge (suc k) v zero b h =
    ground (arith, length-append (groups k (v / 128)) ((v % 128 + 128) ∷ []))
length-groups-ge (suc k) v (suc j) b h = ground (
  arith,
  one_le_pow j,
  length-append (groups k (v / 128)) ((v % 128 + 128) ∷ []),
  length-groups-ge k (v / 128) j (omega arith) (omega arith),
)

-- The number of bytes, by the size of the number.
pub length-encoding :
    (v : ℕ)
    → IsU32 v
    → length (encoding v) ≡ (
        if ltb v (2 ^ 7)
        then 1
        else if ltb v (2 ^ 14)
        then 2
        else if ltb v (2 ^ 21)
        then 3
        else if ltb v (2 ^ 28)
        then 4
        else 5)
unfolding encoding
length-encoding v h = ground (
  arith,
  length-append (groups 9 (v / 128)) (v % 128 ∷ []),
  length-groups 9 (v / 128) 0,
  length-groups 9 (v / 128) 1,
  length-groups 9 (v / 128) 2,
  length-groups 9 (v / 128) 3,
  length-groups 9 (v / 128) 4,
  length-groups-ge 9 (v / 128) 0,
  length-groups-ge 9 (v / 128) 1,
  length-groups-ge 9 (v / 128) 2,
  length-groups-ge 9 (v / 128) 3,
)

groups-IsByte : (k v : ℕ) → All IsByte (groups k v)
unfolding groups
groups-IsByte zero v = tt
groups-IsByte (suc k) v =
    let rest = groups-IsByte k (v / 128) in
    ground (arith, rest, All-append IsByte (groups k (v / 128)) ((v % 128 + 128) ∷ []))

pub encoding-IsByte : (v : ℕ) → All IsByte (encoding v)
unfolding encoding
encoding-IsByte v =
    All-append IsByte (groups 9 (v / 128)) (v % 128 ∷ []) (groups-IsByte 9 (v / 128)) (omega arith)

pub length-encoding-pos : (v : ℕ) → 1 ≤ length (encoding v)
unfolding encoding
length-encoding-pos v = omega (arith, length-append (groups 9 (v / 128)) (v % 128 ∷ []))
