-- ===== src/Parser/Indexes/Orders.antt =====
-- The fields of an index, and of a part of it.
use activerecord.Prelude.{
  ℕ, zero, suc, List, [], ◌∷◌, ◌++◌, take, length, Option, none, some, ◌≡◌, ◌<◌, refl, sym, ap, inl,
  inr, Bool-cases, Option-cases, ◌∙◌, append-nil, append_assoc, arith, get_elem?, pos, ltb, ◌==◌,
}
use activerecord.Go.{ok, Bytes, ◌>>◌, bind_ok, ok_same, fail_if, fail_if_ok}
use activerecord.Go.Strings.{codes, split_on, entry, has_entry}
use activerecord.Package.Records.{FieldDeclaration, IndexDeclaration, IndexField}
use activerecord.Parser.{fieldnum_too_big, fieldnum_equal}
use activerecord.Parser.Indexes.{
  index_tag, index_field, index_fields, order_desc_field, order_desc_fields, take_fields, add_part,
  Part, checked_fieldnum,
}

order_desc_field_same :
    (fm : List (Bytes × ℕ)) (ind ind' : IndexDeclaration) (name : Bytes)
    → order_desc_field fm ind name ≡ ok ind'
    → ind' ≡ ind
unfolding order_desc_field
order_desc_field_same fm ind ind' name h = ground arith

order_desc_fields_same :
    (fm : List (Bytes × ℕ)) (ind ind' : IndexDeclaration) (names : List Bytes)
    → order_desc_fields fm ind names ≡ ok ind'
    → ind' ≡ ind
unfolding order_desc_fields
order_desc_fields_same fm ind ind' [] h = sym (ok_same h)
order_desc_fields_same fm ind ind' (name ∷ names) h =
    let (i, e, e') = bind_ok (order_desc_field fm ind name) (λ i. order_desc_fields fm i names) h in
    order_desc_fields_same fm i ind' names e' ∙ order_desc_field_same fm ind i name e

-- The tag `orderdesc`, when it is accepted, leaves the index as it was: no field of it gets the
-- descending order.
pub orderdesc_lost :
    (fm : List (Bytes × ℕ)) (ind ind' : IndexDeclaration) (names : Bytes)
    → index_tag fm ind (codes "orderdesc", some names) ≡ ok ind'
    → ind' ≡ ind
unfolding index_tag
orderdesc_lost fm ind ind' names h = order_desc_fields_same fm ind ind' (split_on b',' names) h

add_part_ok :
    (fields : List FieldDeclaration) (m : List (Bytes × IndexField)) (ind ind' : IndexDeclaration)
    (n : ℕ)
    → add_part fields m ind n ≡ ok ind'
    → ind'.ind_fields ≡ ind.ind_fields ++ (n ∷ [])
unfolding add_part
add_part_ok fields m ind ind' n h = elim (Option-cases (get_elem? fields n)) [
  | inl e ↦ cc
  | inr (f, e) ↦ let h' = rw (e, add_part) at h in ap (λ i. i.ind_fields) (sym (ok_same h'))
]

take_fields_ok :
    (fields : List FieldDeclaration) (m : List (Bytes × IndexField)) (f : ℕ) (ns : List ℕ)
    (ind ind' : IndexDeclaration)
    → take_fields fields m f ns ind ≡ ok ind'
    → ind'.ind_fields ≡ ind.ind_fields ++ take f ns
unfolding take_fields
take_fields_ok fields m zero ns ind ind' h =
    ap (λ i. i.ind_fields) (sym (ok_same h)) ∙ sym (append-nil ind.ind_fields)
take_fields_ok fields m (suc f) [] ind ind' h = cc
take_fields_ok fields m (suc f) (n ∷ ns) ind ind' h =
    let (i, e, e') = bind_ok (add_part fields m ind n) (λ i. take_fields fields m f ns i) h in
    take_fields_ok fields m f ns i ind' e'
    ∙ rw (add_part_ok fields m ind i n e) (append_assoc ind.ind_fields (n ∷ []) (take f ns))

-- A part of an index that is accepted with a number of fields that is not negative: the number is
-- below the number of fields of the index that was named, and the part gets that many of them, the
-- first ones, in their order.
pub checked_fieldnum_lem :
    (fields : List FieldDeclaration) (p : Part) (n : ℕ) (ind : IndexDeclaration)
    → checked_fieldnum fields p (pos n) ≡ ok ind
    → (n < length p.ex_fields) × (ind.ind_fields ≡ p.ind.ind_fields ++ take n p.ex_fields)
unfolding checked_fieldnum
checked_fieldnum_lem fields p n ind h =
    let (u, e, h') =
      bind_ok (fail_if (ltb (length p.ex_fields) n) fieldnum_too_big)
        (λ _.
          fail_if (length p.ex_fields == n) fieldnum_equal
          >> take_fields fields p.ex_map n p.ex_fields p.ind)
        h in
    let (v, e', h'') =
      bind_ok (fail_if (length p.ex_fields == n) fieldnum_equal)
        (λ _. take_fields fields p.ex_map n p.ex_fields p.ind) h' in
    let a = fail_if_ok _ _ u e in
    let b = fail_if_ok _ _ v e' in
    (ground arith, take_fields_ok fields p.ex_map n p.ex_fields p.ind ind h'')

-- The places of the names, if each of them is a field.
pub places : List (Bytes × ℕ) → List Bytes → Option (List ℕ)
places fm [] = some []
places fm (name ∷ names) = elim (entry name fm) [
  | none ↦ none
  | some n ↦ elim (places fm names) [ none ↦ none | some ns ↦ some (n ∷ ns) ]
]

index_field_ok :
    (fm : List (Bytes × ℕ)) (ind ind' : IndexDeclaration) (name : Bytes)
    → index_field fm ind name ≡ ok ind'
    → (n : ℕ) × (entry name fm ≡ some n) × (ind'.ind_fields ≡ ind.ind_fields ++ (n ∷ []))
unfolding index_field
index_field_ok fm ind ind' name h = elim (Option-cases (entry name fm)) [
  | inl e ↦ (let h' = rw (e, index_field) at h in cc)
  | inr (n, e) ↦ elim (Bool-cases (has_entry name ind.fields_map)) [
    | inl d ↦ (let h' = rw (e, index_field) at h in let h'' = rw d at h' in cc)
    | inr d ↦
        let h' = rw (e, index_field) at h in
        let h'' = rw d at h' in (n, e, ap (λ i. i.ind_fields) (sym (ok_same h'')))
  ]
]

-- A list of names that the tag `fields` accepts names fields only, and their places are appended to
-- the fields of the index, in the order of the names.
pub index_fields_lem :
    (fm : List (Bytes × ℕ)) (names : List Bytes) (ind ind' : IndexDeclaration)
    → index_fields fm ind names ≡ ok ind'
    → (ns : List ℕ) × (places fm names ≡ some ns) × (ind'.ind_fields ≡ ind.ind_fields ++ ns)
unfolding index_fields places
index_fields_lem fm [] ind ind' h =
    ([], refl, ap (λ i. i.ind_fields) (sym (ok_same h)) ∙ sym (append-nil ind.ind_fields))
index_fields_lem fm (name ∷ names) ind ind' h =
    let (i, e, e') = bind_ok (index_field fm ind name) (λ i. index_fields fm i names) h in
    let (ns, p, q) = index_fields_lem fm names i ind' e' in
    let (n, r, t) = index_field_ok fm ind i name e in
    (n ∷ ns, rw (r, places) (rw p refl), q ∙ rw t (append_assoc ind.ind_fields (n ∷ []) ns))
