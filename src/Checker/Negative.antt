-- ===== src/Checker/Negative.antt =====
-- Where the checker panics: on a negative order index of an output parameter.
use activerecord.Prelude.{
  ℕ, ◌+◌, ◌≤◌, ◌<◌, List, [], ◌∷◌, ◌++◌, length, set, length-set, length-replicate, true, not, ◌&&◌,
  ◌||◌, ltb, ltb→lt, lt→ltb, if◌then◌else◌, ◌≡◌, ◌≢◌, inl, inr, refl, ◌∙◌, All, Option-cases,
  Bool-cases, arith, ℤ, pos, negsuc,
}
use activerecord.Go.{
  ok, panic, Bytes, ◌>>◌, fail_if, fail_alone, fail_panic, seq_panic, bind_panic, each, each_safe,
}
use activerecord.Go.Strings.{codes, is_empty, among, entry, has_entry, same_bytes}
use activerecord.Go.Numbers.{parse_int}
use activerecord.Package.Records.{
  FieldObject, FieldDeclaration, IndexDeclaration, ProcFieldDeclaration, RecordPackage,
}
use activerecord.Package.Procedures.{
  field_mutators, write_param, write_params, list_params, max_index, validate,
}
use activerecord.Checker.{
  is_untyped, param_type_not_found, octopus_in_formats, backend_to_match, invalid_format,
  unknown_serializer, serializer_not_found, mutator_conflict_pk, mutator_conflict_object,
  serializer_conflict_object, name_redefined, fields_many_decl, fields_order_decl, fields_empty,
  primary_not_exist, primary_found, server_empty, port_empty, server_conflict, index_empty,
  empty_namespace, object_not_found, mutator_invalid, mutator_type_has_not_serializer, all_format,
  all_proc_format, check_namespace, CheckError, check_mutators, check_field, check_fields,
  check_param, check_in_param, check_backend, check_linked_object, check_number, check_octopus,
  check_for, check_package, check,
}

negative_panics :
    (before behind : List (ℤ × ProcFieldDeclaration)) (n : ℕ) (f : ProcFieldDeclaration)
    (out : List ProcFieldDeclaration)
    → write_params {E = CheckError} out (before ++ ((negsuc n, f) ∷ behind)) ≡ panic
unfolding write_params write_param
negative_panics [] behind n f out = refl
negative_panics ((pos i, g) ∷ before) behind n f out = elim (Bool-cases (ltb i (length out))) [
  | inl e ↦ rw e (negative_panics before behind n f (set out i g))
  | inr e ↦ rw e refl
]
negative_panics ((negsuc i, g) ∷ before) behind n f out = refl

-- A procedure whose output parameters pass the validation of the order indexes, one of which is
-- negative, makes the check of the fields panic.
pub check_fields_negative :
    (cl : RecordPackage) (before behind : List (ℤ × ProcFieldDeclaration)) (n : ℕ)
    (f : ProcFieldDeclaration)
    → cl.fields ≡ []
    → cl.proc_out_fields ≡ before ++ ((negsuc n, f) ∷ behind)
    → validate cl.proc_out_fields ≡ true
    → check_fields cl ≡ panic
unfolding check_fields list_params
check_fields_negative cl before behind n f a b c =
    rw a (rw c (rw b (rw (negative_panics before behind n f _) refl)))

max_index-le : (n : ℕ) (m : List (ℤ × ProcFieldDeclaration)) → n ≤ max_index n m
unfolding max_index
max_index-le n [] = omega arith
max_index-le n ((pos i, f) ∷ m) = elim (Bool-cases (ltb n i)) [
  | inl e ↦ rw e (let b = max_index-le i m in let c = ltb→lt n i e in omega (arith, b, c))
  | inr e ↦ rw e (max_index-le n m)
]
max_index-le n ((negsuc i, f) ∷ m) = max_index-le n m

max_index-bound :
    (n i : ℕ) (f : ProcFieldDeclaration) (m : List (ℤ × ProcFieldDeclaration))
    → i ≤ max_index n ((pos i, f) ∷ m)
unfolding max_index
max_index-bound n i f m = elim (Bool-cases (ltb n i)) [
  | inl e ↦ rw e (max_index-le i m)
  | inr e ↦ rw e (let b = max_index-le n m in ground (arith, b, e))
]

abbrev pub NotNegative : ℤ × ProcFieldDeclaration → Type 0
NotNegative p = (i : ℕ) × (p.0 ≡ pos i)

in_range_safe :
    (k n : ℕ) (m : List (ℤ × ProcFieldDeclaration)) (out : List ProcFieldDeclaration)
    → All NotNegative m
    → length out ≡ k
    → max_index n m < k
    → write_params {E = CheckError} out m ≢ panic
unfolding write_params write_param max_index
in_range_safe k n [] out a b c h = cc
in_range_safe k n ((pos i, f) ∷ m) out a b c h =
    let d = max_index-bound n i f m in
    let e = lt→ltb i (length out) (omega (arith, b, c, d)) in
    in_range_safe k (if ltb n i then i else n) m (set out i f) a.1 (length-set out i f ∙ b) c
      (rw e at h)
in_range_safe k n ((negsuc i, f) ∷ m) out a b c h = absurd (let (x, y) = a.0 in cc)

mutators_safe :
    (cl : RecordPackage) (f : FieldDeclaration) (n : ℕ) (ms : List Bytes)
    → check_mutators cl f n ms ≢ panic
unfolding check_mutators
mutators_safe cl f n [] h = cc
mutators_safe cl f n (m ∷ ms) h = elim (Option-cases (entry m cl.mutator_map)) [
  | inl e ↦
      let h' = rw (e, check_mutators) at h in
      mutators_safe cl f n ms (fail_panic (not (among m field_mutators)) mutator_invalid _ h')
  | inr (d, e) ↦
      let h' = rw (e, check_mutators) at h in
      let h'' = fail_panic (ltb 1 (n + 1)) mutator_invalid _ h' in
      mutators_safe cl f (n + 1) ms (
        fail_panic (not (is_empty d.partial_fields) && is_empty f.serializer)
          mutator_type_has_not_serializer _ h'')
]

field_safe : (cl : RecordPackage) (f : FieldDeclaration) → check_field cl f ≢ panic
unfolding check_field
field_safe cl f h =
    let h1 = fail_panic (not (among f.format all_format)) invalid_format _ h in
    let h2 = fail_panic (unknown_serializer cl f.serializer) serializer_not_found _ h1 in
    let h3 = (seq_panic _ _ h2).0 (mutators_safe cl f 0 f.mutators) in
    let h4 = fail_panic (not (is_empty f.mutators) && f.primary_key) mutator_conflict_pk _ h3 in
    let h5 =
      fail_panic (not (is_empty f.mutators) && not (is_empty f.object_link)) mutator_conflict_object
        _ h4 in
    let h6 =
      fail_panic (not (is_empty f.serializer) && not (is_empty f.object_link))
        serializer_conflict_object _ h5 in
    fail_alone (has_entry f.name cl.fields_object_map) name_redefined h6

param_safe :
    (formats : List Bytes) (cl : RecordPackage) (f : ProcFieldDeclaration)
    → check_param formats cl f ≢ panic
unfolding check_param
param_safe formats cl f h =
    let h1 = fail_panic (not (among f.format formats)) invalid_format _ h in
    let h2 = fail_panic (unknown_serializer cl f.serializer) serializer_not_found _ h1 in
    fail_alone (is_untyped f.parameter_type) param_type_not_found h2

in_param_safe : (f : ProcFieldDeclaration) → check_in_param f ≢ panic
unfolding check_in_param
in_param_safe f h =
    let h1 = fail_panic (not (among f.format octopus_in_formats)) invalid_format _ h in
    fail_alone (not (same_bytes f.format (codes "string")) && is_empty f.serializer)
      serializer_not_found h1

list_safe :
    (m : List (ℤ × ProcFieldDeclaration))
    → All NotNegative m
    → validate m ≡ true
    → list_params {E = CheckError} m ≢ panic
unfolding list_params validate write_params
list_safe [] a v h = cc
list_safe (p ∷ m) a v h =
    in_range_safe (length (p ∷ m)) 0 (p ∷ m) _ a (length-replicate _ _) (ltb→lt _ _ v) h

-- What follows when the output parameters are listed.
lists_safe :
    (cl : RecordPackage) (outs : List ProcFieldDeclaration)
    → (each (check_param all_format cl) outs
        >> (each (check_param all_proc_format cl) cl.proc_in_fields
            >> (fail_if (is_empty cl.fields && is_empty cl.proc_out_fields) fields_empty
                >> fail_if
                    (not (is_empty cl.fields) && not (primary_found cl.fields))
                    primary_not_exist)))
      ≢ panic
lists_safe cl outs h =
    let h1 =
      (seq_panic _ _ h).0 (each_safe (check_param all_format cl) outs (param_safe all_format cl)) in
    let h2 = (seq_panic _ _ h1).0 (
      each_safe (check_param all_proc_format cl) cl.proc_in_fields
        (param_safe all_proc_format cl)) in
    fail_alone _ _ (fail_panic _ _ _ h2)

fields_safe : (cl : RecordPackage) → All NotNegative cl.proc_out_fields → check_fields cl ≢ panic
unfolding check_fields
fields_safe cl a h =
    let h1 =
      fail_panic (not (is_empty cl.fields) && not (is_empty cl.proc_out_fields)) fields_many_decl _
        h in
    elim (Bool-cases (validate cl.proc_out_fields)) [
      | inr e ↦ (let h2 = rw e at h1 in cc)
      | inl e ↦
          let h2 = fail_panic (not (validate cl.proc_out_fields)) fields_order_decl _ h1 in
          let h3 = (seq_panic _ _ h2).0 (each_safe (check_field cl) cl.fields (field_safe cl)) in
          let (outs, h4) = bind_panic _ _ h3 (list_safe cl.proc_out_fields a e) in
          lists_safe cl outs h4
    ]

number_safe : (s : Bytes) → check_number s ≢ panic
unfolding check_number
number_safe s = elim (Option-cases (parse_int s)) [
  | inl e ↦ rw (e, check_number) (λ h. cc)
  | inr (n, e) ↦ rw (e, check_number) (λ h. cc)
]

when_fields :
    (fs : List FieldDeclaration) (s : Bytes)
    → elim fs [ [] ↦ ok tt | f ∷ fs' ↦ check_number s ] ≢ panic
when_fields [] s h = cc
when_fields (f ∷ fs) s h = number_safe s h

octopus_safe : (cl : RecordPackage) → check_octopus cl ≢ panic
unfolding check_octopus
octopus_safe cl h =
    let h1 = fail_panic (is_empty cl.server.host && is_empty cl.server.conf) server_empty _ h in
    let h2 =
      fail_panic (is_empty cl.server.host && not (is_empty cl.server.port)) port_empty _ h1 in
    let h3 =
      fail_panic (not (is_empty cl.server.host) && not (is_empty cl.server.conf)) server_conflict _
        h2 in
    let h4 = (seq_panic _ _ h3).0 (
      each_safe _ cl.indexes
        (λ (ind : IndexDeclaration). fail_alone (is_empty ind.ind_fields) index_empty)) in
    let h5 = (seq_panic _ _ h4).0 (when_fields cl.fields cl.namespace.object_name) in
    each_safe check_in_param cl.proc_in_fields in_param_safe h5

for_safe : (cl : RecordPackage) (b : Bytes) → check_for cl b ≢ panic
unfolding check_for
for_safe cl b h = elim (Bool-cases (same_bytes b (codes "octopus"))) [
  | inl e ↦ octopus_safe cl (rw e at h)
  | inr e ↦ (let h' = rw e at h in cc)
]

backend_safe :
    (cl : RecordPackage) (bs : List Bytes) → check_backend (record cl { backends = bs }) ≢ panic
unfolding check_backend
backend_safe cl [] h = cc
backend_safe cl (b ∷ bs) h = fail_alone (not (is_empty bs)) backend_to_match h

package_safe :
    (linked : List (Bytes × Bytes)) (cl : RecordPackage)
    → All NotNegative cl.proc_out_fields
    → check_package linked cl ≢ panic
unfolding check_package check_namespace check_linked_object
package_safe linked cl a h =
    let h1 = (seq_panic _ _ h).0 (backend_safe cl cl.backends) in
    let h2 =
      fail_panic (is_empty cl.namespace.package_name || is_empty cl.namespace.public_name)
        empty_namespace _ h1 in
    let h3 = (seq_panic _ _ h2).0 (
      each_safe _ cl.fields_object_map (λ (kf : Bytes × FieldObject).
        fail_alone (not (has_entry kf.1.object_name linked)) object_not_found)) in
    let h4 = (seq_panic _ _ h3).0 (fields_safe cl a) in
    each_safe (check_for cl) cl.backends (for_safe cl) h4

-- The checker never panics on packages whose output parameters have no negative order index.
pub check_safe :
    (files : List (Bytes × RecordPackage)) (linked : List (Bytes × Bytes))
    → All (λ (f : Bytes × RecordPackage). All NotNegative f.1.proc_out_fields) files
    → check files linked ≢ panic
unfolding check
check_safe [] linked a h = cc
check_safe (f ∷ files) linked a h =
    check_safe files linked a.1 ((seq_panic _ _ h).0 (package_safe linked f.1 a.0))
