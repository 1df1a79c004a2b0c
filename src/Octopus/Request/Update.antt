-- ===== src/Octopus/Request/Update.antt =====
-- The update request is read back, its operations included.
use activerecord.Prelude.{
  ℕ, ◌%◌, ◌^◌, ◌≤◌, List, [], ◌∷◌, ◌++◌, length, ◌≡◌, refl, sym, ap, ◌∙◌, arith, append_assoc,
  append-nil, All, length-append, length-append-right, flat_map, true, false, ◌==◌, if◌then◌else◌,
  subst,
}
use activerecord.Go.{Bytes, ok}
use activerecord.Go.Reader.{◌>>=◌, read_times, value_of, at, remaining, return}
use activerecord.Go.Reader.Decodes.{Decodes, >>=-Decodes, >>=-return-Decodes, step-Decodes}
use activerecord.Iproto.Pack.{IsU32, mode_default, mode_ber, unpack_uint32}
use activerecord.Iproto.Pack.Strings.{
  unpack_uint32-pack, pack_bytes-append, pack_uint32-append, length-pack_uint32,
}
use activerecord.Octopus.Wire.{Tuple, Ops, pack_space, pack_request_flags_val}
use activerecord.Octopus.Wire.RoundTrip.{
  u32_bytes, field_bytes, tuple_bytes, pack_key-append, key-Decodes, counted-Decodes, counted,
}
use activerecord.Octopus.Wire.Numbers.{space-Decodes, pack_request_flags_val-append}
use activerecord.Octopus.Wire.Flags.{unpack_request_flags_val-pack}
use activerecord.Octopus.Request.{
  pack_op, pack_ops, pack_update, unpack_update, update_body, ops_body, op_body, op_code,
  op_code_from,
}
use activerecord.Octopus.Request.RoundTrip.{name_Decodes}

pub op_bytes : Ops → Bytes
op_bytes op = u32_bytes op.field ++ ((op.op ∷ []) ++ field_bytes op.value)

pack_op-append : (w : Bytes) (op : Ops) → pack_op w op ≡ w ++ op_bytes op
unfolding pack_op op_bytes
pack_op-append w op =
    pack_bytes-append _ op.value mode_ber
    ∙ rw (pack_uint32-append w op.field mode_default) (simp append_assoc)

-- Nothing for no operations, and otherwise their number and each of them.
ops_bytes : List Ops → Bytes
ops_bytes [] = []
ops_bytes (op ∷ ops) = u32_bytes (length (op ∷ ops) % 2 ^ 32) ++ flat_map op_bytes (op ∷ ops)

pack_ops-append : (w : Bytes) (ops : List Ops) → pack_ops w ops ≡ w ++ ops_bytes ops
unfolding pack_ops ops_bytes
pack_ops-append w [] = sym (append-nil w)
pack_ops-append w (op ∷ ops) = counted pack_op op_bytes pack_op-append w _ (op ∷ ops)

abbrev update_head : ℕ → Tuple → Bytes → Bytes
update_head ns key bs =
    pack_space [] ns ++ (pack_request_flags_val [] true 0 ++ (tuple_bytes key ++ bs))

pack_update-bytes :
    (ns : ℕ) (key : Tuple) (ops : List Ops)
    → pack_update ns key ops ≡ update_head ns key (ops_bytes ops)
unfolding pack_update
pack_update-bytes ns key ops =
    pack_ops-append _ ops
    ∙ rw
        (
          pack_key-append (pack_request_flags_val (pack_space [] ns) true 0) key,
          pack_request_flags_val-append (pack_space [] ns) true 0,
        )
        (simp append_assoc)

abbrev pub FieldFits : Ops → Type 0
FieldFits op = IsU32 op.field

op_code-Decodes : (b k : ℕ) → Decodes op_code (b ∷ []) b k
unfolding op_code op_code_from
op_code-Decodes b k = record { run = λ ys b. refl }

module _ (k : ℕ) (small : IsU32 k) where
  op-Decodes :
      (op : Ops) → FieldFits op → length (op_bytes op) ≤ k → Decodes op_body (op_bytes op) op k
  unfolding op_body op_bytes
  op-Decodes op h b =
      let bs1 = (op.op ∷ []) ++ field_bytes op.value in
      let all = length-append (u32_bytes op.field) bs1 in
      >>=-Decodes _ (unpack_uint32-pack op.field k mode_default h) (
        >>=-Decodes _ (op_code-Decodes op.op k) (
          >>=-return-Decodes (λ v. record { field = op.field; op = op.op; value = v })
            (name_Decodes op.value k small (omega (arith, all)))))

  each_op :
      (ops : List Ops)
      → All FieldFits ops
      → length (flat_map op_bytes ops) ≤ k
      → All (λ op. Decodes op_body (op_bytes op) op k) ops
  unfolding flat_map
  each_op [] h b = tt
  each_op (op ∷ ops) h b =
      let all = length-append (op_bytes op) (flat_map op_bytes ops) in
      (op-Decodes op h.0 (omega (arith, all)), each_op ops h.1 (omega (arith, all)))

  op_pos : (op : Ops) → 1 ≤ length (op_bytes op)
  unfolding op_bytes
  op_pos op = omega (
    arith,
    length-append (u32_bytes op.field) ((op.op ∷ []) ++ field_bytes op.value),
    length-pack_uint32 op.field,
  )

  ops_run :
      (ops : List Ops)
      → All FieldFits ops
      → length (ops_bytes ops) ≤ k
      → ops_body (length (ops_bytes ops)) (at (ops_bytes ops) k) ≡ ok (ops, at [] k)
  unfolding ops_body return ops_bytes
  ops_run [] h b = refl
  ops_run (op ∷ ops) h b =
      let n = length (op ∷ ops) % 2 ^ 32 in
      let all = length-append (u32_bytes n) (flat_map op_bytes (op ∷ ops)) in
      let four = length-pack_uint32 n in
      let d =
        counted-Decodes k small op_body op_bytes op_pos (op ∷ ops)
          (each_op (op ∷ ops) h (omega (arith, all))) b in
      let bs = u32_bytes n ++ flat_map op_bytes (op ∷ ops) in
      let some_left : (length bs == 0) ≡ false = ground (arith, all, four) in
      rw (some_left, if◌then◌else◌)
        (subst
          (λ xs.
            (unpack_uint32 mode_default >>= read_times op_body) (at xs k) ≡ ok (op ∷ ops, at [] k))
          (append-nil bs) (d.run [] (rw append-nil b)))

ops_step :
    {A : Type 0} (k : ℕ)
    → IsU32 k
    → (ops : List Ops) → All FieldFits ops
    → length (ops_bytes ops) ≤ k
    → (g : List Ops → A)
    → (remaining >>= λ left. ops_body left >>= λ update_ops. return (g update_ops))
        (at (ops_bytes ops) k)
      ≡ ok (g ops, at [] k)
unfolding ◌>>=◌ remaining return
ops_step k small ops h b g = rw (ops_run k small ops h b, ◌>>=◌)

length-update_head :
    (ns : ℕ) (key : Tuple) (bs : Bytes)
    → (length bs ≤ length (update_head ns key bs))
      × (length (tuple_bytes key) ≤ length (update_head ns key bs))
length-update_head ns key bs =
    let bs1 = tuple_bytes key ++ bs in
    let bs2 = pack_request_flags_val [] true 0 ++ bs1 in
    omega (
      arith,
      length-append (pack_space [] ns) bs2,
      length-append (pack_request_flags_val [] true 0) bs1,
      length-append (tuple_bytes key) bs,
    )

-- An update request is read back whole, with or without operations, in their order.
pub unpack_update-pack :
    (ns : ℕ) (key : Tuple) (ops : List Ops)
    → IsU32 ns
    → All FieldFits ops
    → IsU32 (length (pack_update ns key ops))
    → unpack_update (pack_update ns key ops) ≡ ok (ns, key, ops)
unfolding unpack_update update_body
unpack_update-pack ns key ops hn ho = rw (pack_update-bytes ns key ops) λ fits.
    let k = length (update_head ns key (ops_bytes ops)) in
    let (short, key_short) = length-update_head ns key (ops_bytes ops) in
    ap value_of (
      step-Decodes _ _ (space-Decodes ns k hn) (omega arith)
      ∙ step-Decodes _ _ (unpack_request_flags_val-pack true 0 k (omega arith))
          (length-append-right (pack_space [] ns) _)
      ∙ step-Decodes _ _ (key-Decodes k fits key key_short) (
          omega (
            arith,
            length-append-right (pack_request_flags_val [] true 0)
                (tuple_bytes key ++ ops_bytes ops),
            length-append-right (pack_space [] ns)
                (pack_request_flags_val [] true 0 ++ (tuple_bytes key ++ ops_bytes ops)),
          ))
      ∙ ops_step k fits ops ho short (λ update_ops. (ns, key, update_ops)))
