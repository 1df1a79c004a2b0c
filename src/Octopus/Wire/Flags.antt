-- ===== src/Octopus/Wire/Flags.antt =====
-- The numbers of a request: limit and flags.
use activerecord.Prelude.{
  ℕ, zero, suc, ◌*◌, ◌<◌, [], ◌≡◌, refl, arith, Bool, true, false, ◌==◌, if◌then◌else◌, subst,
}
use activerecord.Go.Reader.Decodes.{Decodes, >>=-return-Decodes}
use activerecord.Iproto.Pack.{IsU32, mode_default}
use activerecord.Iproto.Pack.Strings.{unpack_uint32-pack}
use activerecord.Octopus.Wire.{
  pack_limit, unpack_limit, pack_request_flags_val, unpack_request_flags_val, request_flags,
  split_flags, bool_to_uint, uint_to_bool,
}

-- A limit is read back, but for the largest uint32, which stands for "no limit" as 0 does.
pub unpack_limit-pack :
    (limit k : ℕ)
    → IsU32 limit
    → Decodes unpack_limit (pack_limit [] limit) (if limit == 0xffffffff then 0 else limit) k
unfolding unpack_limit pack_limit
unpack_limit-pack limit k h =
    subst (λ x. Decodes unpack_limit (pack_limit [] limit) x k) (ground arith)
      (>>=-return-Decodes (λ x. if x == 0xffffffff then 0 else x)
        (unpack_uint32-pack (if limit == 0 then 0xffffffff else limit) k mode_default
          (ground arith)))

flags_back :
    (ret : Bool) (mode : ℕ) → mode < 3 → split_flags (request_flags ret mode) ≡ (ret, 2 * mode)
flags_back true zero h = refl
flags_back true (suc zero) h = refl
flags_back true (suc (suc zero)) h = refl
flags_back true (suc (suc (suc n))) h = absurd (omega arith)
flags_back false zero h = refl
flags_back false (suc zero) h = refl
flags_back false (suc (suc zero)) h = refl
flags_back false (suc (suc (suc n))) h = absurd (omega arith)

flags_small : (ret : Bool) (mode : ℕ) → mode < 3 → IsU32 (request_flags ret mode)
flags_small true zero h = omega arith
flags_small true (suc zero) h = omega arith
flags_small true (suc (suc zero)) h = omega arith
flags_small true (suc (suc (suc n))) h = absurd (omega arith)
flags_small false zero h = omega arith
flags_small false (suc zero) h = omega arith
flags_small false (suc (suc zero)) h = omega arith
flags_small false (suc (suc (suc n))) h = absurd (omega arith)

-- Of the three insert modes 0, 1 and 2 each comes back doubled: the packer sets the bit of that
-- number, and the reader returns the bits. The flag that asks for the tuple comes back as it was.
pub unpack_request_flags_val-pack :
    (ret : Bool) (mode k : ℕ)
    → mode < 3
    → Decodes unpack_request_flags_val (pack_request_flags_val [] ret mode) (ret, 2 * mode) k
unfolding unpack_request_flags_val pack_request_flags_val
unpack_request_flags_val-pack ret mode k h =
    subst (λ x. Decodes unpack_request_flags_val (pack_request_flags_val [] ret mode) x k)
      (flags_back ret mode h)
      (>>=-return-Decodes split_flags
        (unpack_uint32-pack (request_flags ret mode) k mode_default (flags_small ret mode h)))

pub uint_to_bool-bool_to_uint : (v : Bool) → uint_to_bool (bool_to_uint v) ≡ v
unfolding uint_to_bool bool_to_uint
uint_to_bool-bool_to_uint true = refl
uint_to_bool-bool_to_uint false = refl
