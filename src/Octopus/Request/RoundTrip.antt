-- ===== src/Octopus/Request/RoundTrip.antt =====
-- The requests are read back.
use activerecord.Prelude.{
  ℕ, ◌*◌, ◌≤◌, ◌<◌, List, [], ◌++◌, length, ◌≡◌, ◌∙◌, arith, append_assoc, length-append, true,
  ◌==◌, if◌then◌else◌,
}
use activerecord.Go.{Bytes, ok}
use activerecord.Go.Reader.Decodes.{
  Decodes, >>=-Decodes, >>=-return-Decodes, value-Decodes, return-Decodes,
}
use activerecord.Iproto.Pack.{IsU32, mode_default, mode_ber, pack_bytes, unpack_bytes}
use activerecord.Iproto.Pack.Strings.{
  unpack_uint32-pack, unpack_bytes-pack, pack_bytes-append, length-pack_bytes-ber,
}
use activerecord.Octopus.Wire.{
  Tuple, pack_space, pack_request_flags_val, pack_index_num, pack_offset, pack_limit,
}
use activerecord.Octopus.Wire.RoundTrip.{
  u32_bytes, field_bytes, tuple_bytes, tuples_bytes, pack_tuple-append, pack_key-append,
  pack_tuples-append, tuple-Decodes, key-Decodes, tuples-Decodes, counted,
}
use activerecord.Octopus.Wire.Numbers.{
  space-Decodes, index_num-Decodes, offset-Decodes, pack_index_num-append, pack_offset-append,
  pack_limit-append, pack_request_flags_val-append,
}
use activerecord.Octopus.Wire.Flags.{unpack_limit-pack, unpack_request_flags_val-pack}
use activerecord.Octopus.Request.{
  pack_insert_replace, unpack_insert_replace, insert_replace_body, pack_select, unpack_select,
  select_body, pack_delete, unpack_delete, delete_body, pack_lua, unpack_lua, lua_body, check_lua,
}

pack_insert_replace-bytes :
    (ns mode : ℕ) (t : Tuple)
    → pack_insert_replace ns mode t
      ≡ pack_space [] ns ++ (pack_request_flags_val [] true mode ++ tuple_bytes t)
unfolding pack_insert_replace
pack_insert_replace-bytes ns mode t =
    pack_tuple-append _ t
    ∙ rw (pack_request_flags_val-append (pack_space [] ns) true mode)
        (append_assoc (pack_space [] ns) (pack_request_flags_val [] true mode) (tuple_bytes t))

-- An insert request of a known mode is read back whole, its mode doubled.
pub unpack_insert_replace-pack :
    (ns mode : ℕ) (t : Tuple)
    → IsU32 ns
    → mode < 3
    → IsU32 (length (pack_insert_replace ns mode t))
    → unpack_insert_replace (pack_insert_replace ns mode t) ≡ ok (ns, true, 2 * mode, t)
unfolding unpack_insert_replace insert_replace_body
unpack_insert_replace-pack ns mode t hn hm = rw (pack_insert_replace-bytes ns mode t) λ fits.
    let flags = pack_request_flags_val [] true mode in
    let all = length-append (pack_space [] ns) (flags ++ tuple_bytes t) in
    let more = length-append flags (tuple_bytes t) in
    value-Decodes _ (
      >>=-Decodes _ (space-Decodes ns _ hn) (
        >>=-Decodes _ (unpack_request_flags_val-pack true mode _ hm)
          (>>=-return-Decodes _ (tuple-Decodes _ fits t (omega (arith, all, more))))))

abbrev select_head : ℕ → ℕ → ℕ → ℕ → Bytes → Bytes
select_head ns indexnum offset limit bs =
    pack_space [] ns
    ++ (pack_index_num [] indexnum ++ (pack_offset [] offset ++ (pack_limit [] limit ++ bs)))

length-select_head :
    (ns indexnum offset limit : ℕ) (bs : Bytes)
    → length bs ≤ length (select_head ns indexnum offset limit bs)
length-select_head ns indexnum offset limit bs =
    let bs1 = pack_limit [] limit ++ bs in
    let bs2 = pack_offset [] offset ++ bs1 in
    let bs3 = pack_index_num [] indexnum ++ bs2 in
    omega (
      arith,
      length-append (pack_space [] ns) bs3,
      length-append (pack_index_num [] indexnum) bs2,
      length-append (pack_offset [] offset) bs1,
      length-append (pack_limit [] limit) bs,
    )

pack_select-bytes :
    (ns indexnum offset limit : ℕ) (keys : List Tuple)
    → pack_select ns indexnum offset limit keys
      ≡ select_head ns indexnum offset limit (tuples_bytes keys)
unfolding pack_select
pack_select-bytes ns indexnum offset limit keys =
    pack_tuples-append _ keys
    ∙ rw
        (
          pack_limit-append (pack_offset (pack_index_num (pack_space [] ns) indexnum) offset) limit,
          pack_offset-append (pack_index_num (pack_space [] ns) indexnum) offset,
          pack_index_num-append (pack_space [] ns) indexnum,
        )
        (simp append_assoc)

-- A select request is read back whole; a limit of 2 ^ 32 - 1 comes back as 0, no limit.
pub unpack_select-pack :
    (ns indexnum offset limit : ℕ) (keys : List Tuple)
    → IsU32 ns
    → IsU32 indexnum
    → IsU32 offset
    → IsU32 limit
    → IsU32 (length (pack_select ns indexnum offset limit keys))
    → unpack_select (pack_select ns indexnum offset limit keys)
      ≡ ok (ns, indexnum, offset, (if limit == 0xffffffff then 0 else limit), keys)
unfolding unpack_select select_body
unpack_select-pack ns indexnum offset limit keys hn hi ho hl =
    rw (pack_select-bytes ns indexnum offset limit keys) λ fits.
      let short = length-select_head ns indexnum offset limit (tuples_bytes keys) in
      value-Decodes _ (
        >>=-Decodes _ (space-Decodes ns _ hn) (
          >>=-Decodes _ (index_num-Decodes indexnum _ hi) (
            >>=-Decodes _ (offset-Decodes offset _ ho) (
              >>=-Decodes _ (unpack_limit-pack limit _ hl)
                (>>=-return-Decodes _ (tuples-Decodes _ fits keys (omega (arith, short))))))))

pack_delete-bytes :
    (ns : ℕ) (key : Tuple)
    → pack_delete ns key ≡ pack_space [] ns ++ (pack_request_flags_val [] true 0 ++ tuple_bytes key)
unfolding pack_delete
pack_delete-bytes ns key =
    pack_key-append _ key
    ∙ rw (pack_request_flags_val-append (pack_space [] ns) true 0)
        (append_assoc (pack_space [] ns) (pack_request_flags_val [] true 0) (tuple_bytes key))

-- A delete request is read back whole.
pub unpack_delete-pack :
    (ns : ℕ) (key : Tuple)
    → IsU32 ns
    → IsU32 (length (pack_delete ns key))
    → unpack_delete (pack_delete ns key) ≡ ok (ns, key)
unfolding unpack_delete delete_body
unpack_delete-pack ns key hn = rw (pack_delete-bytes ns key) λ fits.
    let flags = pack_request_flags_val [] true 0 in
    let all = length-append (pack_space [] ns) (flags ++ tuple_bytes key) in
    let more = length-append flags (tuple_bytes key) in
    value-Decodes _ (
      >>=-Decodes _ (space-Decodes ns _ hn) (
        >>=-Decodes _ (unpack_request_flags_val-pack true 0 _ (omega arith))
          (>>=-return-Decodes _ (key-Decodes _ fits key (omega (arith, all, more))))))

pack_lua-bytes :
    (name : Bytes) (args : Tuple)
    → pack_lua name args ≡ u32_bytes 0 ++ (field_bytes name ++ tuple_bytes args)
unfolding pack_lua tuple_bytes
pack_lua-bytes name args =
    counted (λ w arg. pack_bytes w arg mode_ber) field_bytes (λ w x. pack_bytes-append w x mode_ber)
      _ _ args
    ∙ rw (pack_bytes-append (u32_bytes 0) name mode_ber)
        (append_assoc (u32_bytes 0) (field_bytes name) (tuple_bytes args))

check_lua-Decodes : (k : ℕ) → Decodes (check_lua 0) [] tt k
unfolding check_lua
check_lua-Decodes k = return-Decodes tt

pub name_Decodes :
    (f : Bytes) (k : ℕ)
    → IsU32 k
    → length (field_bytes f) ≤ k
    → Decodes (unpack_bytes mode_ber) (field_bytes f) f k
name_Decodes f k small b =
    let long = length-pack_bytes-ber f in
    unpack_bytes-pack f k mode_ber (omega (arith, long)) (omega (arith, long))

-- A call of a procedure is read back: its name and its arguments.
pub unpack_lua-pack :
    (name : Bytes) (args : Tuple)
    → IsU32 (length (pack_lua name args))
    → unpack_lua (pack_lua name args) ≡ ok (name, args)
unfolding unpack_lua lua_body
unpack_lua-pack name args = rw (pack_lua-bytes name args) λ fits.
    let all = length-append (u32_bytes 0) (field_bytes name ++ tuple_bytes args) in
    let more = length-append (field_bytes name) (tuple_bytes args) in
    value-Decodes _ (
      >>=-Decodes _ (unpack_uint32-pack 0 _ mode_default (omega arith)) (
        >>=-Decodes _ (check_lua-Decodes _) (
          >>=-Decodes _ (name_Decodes name _ fits (omega (arith, all, more)))
            (>>=-return-Decodes _ (tuple-Decodes _ fits args (omega (arith, all, more)))))))
