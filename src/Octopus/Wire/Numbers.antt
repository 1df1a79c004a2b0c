-- ===== src/Octopus/Wire/Numbers.antt =====
-- The numbers of a request as pieces that are appended and read back.
use activerecord.Prelude.{ℕ, ◌≡◌, ◌++◌, [], Bool}
use activerecord.Go.{Bytes}
use activerecord.Go.Reader.Decodes.{Decodes}
use activerecord.Iproto.Pack.{IsU32, mode_default}
use activerecord.Iproto.Pack.Strings.{pack_uint32-append, unpack_uint32-pack}
use activerecord.Octopus.Wire.{
  pack_space, unpack_space, pack_index_num, unpack_index_num, pack_offset, unpack_offset,
  pack_limit, pack_request_flags_val,
}

pub pack_space-append : (w : Bytes) (v : ℕ) → pack_space w v ≡ w ++ pack_space [] v
unfolding pack_space
pack_space-append w v = pack_uint32-append w v mode_default

pub pack_index_num-append : (w : Bytes) (v : ℕ) → pack_index_num w v ≡ w ++ pack_index_num [] v
unfolding pack_index_num
pack_index_num-append w v = pack_uint32-append w v mode_default

pub pack_offset-append : (w : Bytes) (v : ℕ) → pack_offset w v ≡ w ++ pack_offset [] v
unfolding pack_offset
pack_offset-append w v = pack_uint32-append w v mode_default

pub pack_limit-append : (w : Bytes) (v : ℕ) → pack_limit w v ≡ w ++ pack_limit [] v
unfolding pack_limit
pack_limit-append w v = pack_uint32-append w _ mode_default

pub pack_request_flags_val-append :
    (w : Bytes) (ret : Bool) (mode : ℕ)
    → pack_request_flags_val w ret mode ≡ w ++ pack_request_flags_val [] ret mode
unfolding pack_request_flags_val
pack_request_flags_val-append w ret mode = pack_uint32-append w _ mode_default

module _ (v k : ℕ) (h : IsU32 v) where
  pub space-Decodes : Decodes unpack_space (pack_space [] v) v k
  unfolding unpack_space pack_space
  space-Decodes = unpack_uint32-pack v k mode_default h

  pub index_num-Decodes : Decodes unpack_index_num (pack_index_num [] v) v k
  unfolding unpack_index_num pack_index_num
  index_num-Decodes = unpack_uint32-pack v k mode_default h

  pub offset-Decodes : Decodes unpack_offset (pack_offset [] v) v k
  unfolding unpack_offset pack_offset
  offset-Decodes = unpack_uint32-pack v k mode_default h

pub ruleset number_appends = (
  pack_space-append, pack_index_num-append, pack_offset-append, pack_limit-append,
  pack_request_flags_val-append,
)
