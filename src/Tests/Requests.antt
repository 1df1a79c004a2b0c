-- ===== src/Tests/Requests.antt =====
-- The requests of pkg/octopus/box.go at concrete inputs.
use activerecord.Prelude.{List, [], ◌∷◌, ◌≡◌, arith, true, length}
use activerecord.Go.{ok}
use activerecord.Iproto.Pack.{IsU32, pack_uint32, pack_uint64_ber, ber_loop, pack_bytes}
use activerecord.Octopus.Wire.{
  Tuple, Ops, pack_space, pack_index_num, pack_offset, pack_limit, pack_request_flags_val,
  pack_field, pack_field_nums, pack_tuple, pack_tuples, pack_key,
}
use activerecord.Octopus.Request.{
  pack_insert_replace, unpack_insert_replace, pack_select, unpack_select, pack_op, pack_ops,
  pack_update, unpack_update, pack_delete,
}
use activerecord.Octopus.Request.RoundTrip.{unpack_insert_replace-pack, unpack_select-pack}
use activerecord.Octopus.Request.Update.{unpack_update-pack}

abbrev user : Tuple
user = (1 ∷ []) ∷ (b'm' ∷ b'a' ∷ b'x' ∷ []) ∷ []

abbrev key : Tuple
key = (1 ∷ []) ∷ []

abbrev set_name : Ops
set_name = record { field = 1; op = 0; value = b'e' ∷ b'v' ∷ b'e' ∷ [] }

insert_fits : IsU32 (length (pack_insert_replace 7 1 user))
unfolding pack_insert_replace pack_tuple pack_field_nums pack_field pack_bytes pack_uint32
    pack_uint64_ber ber_loop pack_request_flags_val pack_space
insert_fits = omega arith

unpack_insert_replace-pack_example :
    unpack_insert_replace (pack_insert_replace 7 1 user) ≡ ok (7, true, 2, user)
unpack_insert_replace-pack_example =
    unpack_insert_replace-pack 7 1 user (omega arith) (omega arith) insert_fits

abbrev keys : List Tuple
keys = key ∷ ((2 ∷ []) ∷ []) ∷ []

select_fits : IsU32 (length (pack_select 7 0 10 100 keys))
unfolding pack_select pack_tuples pack_tuple pack_field_nums pack_field pack_bytes pack_uint32
    pack_uint64_ber ber_loop pack_limit pack_offset pack_index_num pack_space
select_fits = omega arith

unpack_select-pack_example : unpack_select (pack_select 7 0 10 100 keys) ≡ ok (7, 0, 10, 100, keys)
unpack_select-pack_example =
    unpack_select-pack 7 0 10 100 keys (omega arith) (omega arith) (omega arith) (omega arith)
      select_fits

delete_fits : IsU32 (length (pack_delete 7 key))
unfolding pack_delete pack_key pack_field pack_bytes pack_uint32 pack_uint64_ber ber_loop
    pack_request_flags_val pack_space
delete_fits = omega arith

update_fits : IsU32 (length (pack_update 7 key (set_name ∷ [])))
unfolding pack_update pack_ops pack_op pack_key pack_field pack_bytes pack_uint32 pack_uint64_ber
    ber_loop pack_request_flags_val pack_space
update_fits = omega arith

unpack_update-pack_example :
    unpack_update (pack_update 7 key (set_name ∷ [])) ≡ ok (7, key, set_name ∷ [])
unpack_update-pack_example =
    unpack_update-pack 7 key (set_name ∷ []) (omega arith) (omega arith, tt) update_fits
