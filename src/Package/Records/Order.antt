-- ===== src/Package/Records/Order.antt =====
-- What the declarations of a record leave behind.
use activerecord.Prelude.{
  ℕ, List, [], ◌∷◌, ◌++◌, length, get_elem?, none, some, true, ◌≡◌, refl, subst, Option-cases, inl,
  inr,
}
use activerecord.Go.Strings.{same_bytes, same_bytes_refl, entry}
use activerecord.Go.{Result, ok, err, panic, Bytes, ◌>>=◌}
use activerecord.Package.{DeclError, redefined, duplicate_order_index}
use activerecord.Package.Records.{
  FieldDeclaration, RecordPackage, add_field, appended, ProcFieldDeclaration, add_proc_field,
  with_in, with_out, add_proc_out, at_order, is_output, IndexDeclaration, add_index, new_index,
  selector_of, with_index, complete, marked,
}

get_elem?-last :
    {A : Type 0} (xs : List A) (x : A) → get_elem? (xs ++ (x ∷ [])) (length xs) ≡ some x
get_elem?-last [] x = refl
get_elem?-last (y ∷ xs) x = get_elem?-last xs x

-- A field whose name is new stands at the end of the fields, and its name leads to it; the second
-- field of a name is refused and changes nothing.
pub add_field-add_field :
    (rc : RecordPackage) (f g : FieldDeclaration)
    → entry f.name rc.fields_map ≡ none
    → same_bytes f.name g.name ≡ true
    → (rc' : RecordPackage) × (i : ℕ) × (add_field rc f ≡ (rc', none))
      × (entry f.name rc'.fields_map ≡ some i)
      × (get_elem? rc'.fields i ≡ some f)
      × (add_field rc' g ≡ (rc', some redefined))
unfolding add_field appended
add_field-add_field rc f g new same = (
  appended rc f,
  length rc.fields,
  rw (new, add_field) refl,
  rw (same_bytes_refl f.name) refl,
  get_elem?-last rc.fields f,
  rw (same, add_field) refl,
)

-- A parameter with an order index that is taken is refused, but its name stays known: a second try,
-- with any order index, is refused because of the name.
pub add_proc_field_twice :
    (rc : RecordPackage) (f g h : ProcFieldDeclaration)
    → entry f.name rc.proc_fields_map ≡ none
    → is_output f.parameter_type ≡ true
    → at_order f.order_index rc.proc_out_fields ≡ some h
    → same_bytes f.name g.name ≡ true
    → (rc' : RecordPackage) × (add_proc_field rc f ≡ (rc', some duplicate_order_index))
      × (add_proc_field rc' g ≡ (rc', some redefined))
unfolding add_proc_field add_proc_out with_out with_in
add_proc_field_twice rc f g h new out taken same = (
  with_in rc f,
  rw (new, add_proc_field) (rw out (rw (taken, add_proc_out) refl)),
  rw (same, add_proc_field) refl,
)

stored_selector :
    (rc rc' : RecordPackage) (ind : IndexDeclaration) (k : Bytes)
    (fs : Result DeclError (List FieldDeclaration))
    → (fs >>= λ x. ok (with_index rc ind x)) ≡ ok rc'
    → same_bytes ind.selector k ≡ true
    → entry k rc'.selector_map ≡ some (length rc.indexes)
unfolding with_index
stored_selector rc rc' ind k (ok fs) h same =
    let e : ◌≡◌ {A = Result DeclError RecordPackage} (ok (with_index rc ind fs)) (ok rc') = h in
    let same_rc : with_index rc ind fs ≡ rc' = cc in
    subst (λ r. entry k r.selector_map ≡ some (length rc.indexes)) same_rc (rw (same, entry) refl)
stored_selector rc rc' ind k (err e) h same = cc
stored_selector rc rc' ind k panic h same = cc

add_index_selector :
    (rc rc' : RecordPackage) (f : IndexDeclaration) (k : Bytes)
    → add_index rc f ≡ ok rc'
    → same_bytes (selector_of f) k ≡ true
    → entry k rc'.selector_map ≡ some (length rc.indexes)
unfolding add_index new_index complete
add_index_selector rc rc' f k h same = elim (Option-cases (entry f.name rc.index_map)) [
  | inr (i, e) ↦ cc (rw (e, add_index) at h)
  | inl e ↦
      let h' = rw (e, add_index) at h in
      elim (Option-cases (entry (selector_of f) rc.selector_map)) [
        | inr (i, e') ↦ cc (rw e' at h')
        | inl e' ↦ stored_selector rc rc' (complete rc f) k (marked f rc.fields) (rw e' at h') same
      ]
]

-- Of two indexes that end with one selector, also two that have none and are neither primary nor
-- unique, the second is refused.
pub add_index_same_selector :
    (rc rc' : RecordPackage) (f g : IndexDeclaration)
    → add_index rc f ≡ ok rc'
    → same_bytes (selector_of f) (selector_of g) ≡ true
    → add_index rc' g ≡ err redefined
unfolding add_index
add_index_same_selector rc rc' f g h same =
    let seen = add_index_selector rc rc' f (selector_of g) h same in
    elim (Option-cases (entry g.name rc'.index_map)) [
      | inl e ↦ rw (e, add_index) (rw seen refl)
      | inr (i, e) ↦ rw (e, add_index) refl
    ]
