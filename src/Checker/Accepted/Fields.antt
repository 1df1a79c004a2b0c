-- ===== src/Checker/Accepted/Fields.antt =====
-- Fields and parameters that are accepted.
use activerecord.Prelude.{
  ℕ, ◌+◌, ◌≤◌, List, [], ◌∷◌, Bool, true, false, not, ◌&&◌, ltb, ◌≡◌, ◌≢◌, ◌⊎◌, inl, inr, refl, All,
  Option-cases, Bool-cases, arith,
}
use activerecord.Go.{ok, Bytes, fail_if, fail_if_ok, seq_ok}
use activerecord.Go.Strings.{codes, is_empty, among, entry, same_bytes, same_bytes_eq}
use activerecord.Package.Records.{
  FieldDeclaration, ProcFieldDeclaration, RecordPackage, ProcParameterType, untyped, input, output,
  input_output,
}
use activerecord.Package.Procedures.{field_mutators}
use activerecord.Checker.{
  check_mutators, check_field, check_param, unknown_serializer, mutator_invalid,
  mutator_type_has_not_serializer, is_untyped, check_in_param,
}
use activerecord.Checker.Accepted.{
  HasSerializer, MutatorAccepted, custom_count, FieldAccepted, ParamAccepted, InAccepted,
}

pub not-false : (b : Bool) → not b ≡ false → b ≡ true
not-false true h = refl
not-false false h = cc

pub is_empty-true : {A : Type 0} (xs : List A) → is_empty xs ≡ true → xs ≡ []
is_empty-true [] h = refl
is_empty-true (x ∷ xs) h = cc

pub is_empty-false : {A : Type 0} (xs : List A) → is_empty xs ≡ false → xs ≢ []
is_empty-false [] h = cc
is_empty-false (x ∷ xs) h = λ e. cc

-- A condition on a list that is not empty.
pub when_nonempty :
    {A : Type 0} (xs : List A) (b : Bool) → (not (is_empty xs) && b) ≡ false → xs ≢ [] → b ≡ false
when_nonempty [] b h k = absurd (k refl)
when_nonempty (x ∷ xs) b h k = h

pub serializer_ok :
    (cl : RecordPackage) (ss : List Bytes) → unknown_serializer cl ss ≡ false → HasSerializer cl ss
unfolding unknown_serializer
serializer_ok cl [] h = tt
serializer_ok cl (s ∷ ss) h = ground arith

partial_ok :
    {A : Type 0} (ss : List Bytes) (ps : List A)
    → (not (is_empty ps) && is_empty ss) ≡ false
    → (ss ≢ []) ⊎ (ps ≡ [])
partial_ok ss [] h = inr refl
partial_ok [] (p ∷ ps) h = cc
partial_ok (s ∷ ss) (p ∷ ps) h = inl (λ e. cc)

pub mutators_ok :
    (cl : RecordPackage) (f : FieldDeclaration) (n : ℕ) (ms : List Bytes)
    → check_mutators cl f n ms ≡ ok tt
    → n ≤ 1
    → All (MutatorAccepted cl f) ms × (n + custom_count cl ms ≤ 1)
unfolding check_mutators
mutators_ok cl f n [] h b = (tt, omega (arith, b))
mutators_ok cl f n (m ∷ ms) h b = elim (Option-cases (entry m cl.mutator_map)) [
  | inl e ↦
      let h' = rw (e, check_mutators) at h in
      let (p, q) =
        seq_ok (fail_if (not (among m field_mutators)) mutator_invalid) (check_mutators cl f n ms)
          h' in
      let (r, s) = mutators_ok cl f n ms q b in
      let t = fail_if_ok _ _ tt p in ((inl (e, not-false _ t), r), rw (e, custom_count) s)
  | inr (d, e) ↦
      let h' = rw (e, check_mutators) at h in
      let (p, q) = seq_ok (fail_if (ltb 1 (n + 1)) mutator_invalid) _ h' in
      let (p', q') =
        seq_ok
          (fail_if (not (is_empty d.partial_fields) && is_empty f.serializer)
            mutator_type_has_not_serializer)
          (check_mutators cl f (n + 1) ms) q in
      let t = fail_if_ok _ _ tt p in
      let (r, s) = mutators_ok cl f (n + 1) ms q' (ground arith) in
      (
        (inr (d, e, partial_ok f.serializer d.partial_fields (fail_if_ok _ _ tt p')), r),
        rw (e, custom_count) (omega (arith, s)),
      )
]

one : 0 ≤ 1
one = omega arith

one_of : (n : ℕ) → 0 + n ≤ 1 → n ≤ 1
one_of n h = omega (arith, h)

pub field_ok :
    (cl : RecordPackage) (f : FieldDeclaration) → check_field cl f ≡ ok tt → FieldAccepted cl f
unfolding check_field
field_ok cl f h =
    let (p1, h1) = seq_ok _ _ h in
    let (p2, h2) = seq_ok _ _ h1 in
    let (p3, h3) = seq_ok _ _ h2 in
    let (p4, h4) = seq_ok _ _ h3 in
    let (p5, h5) = seq_ok _ _ h4 in
    let (p6, p7) = seq_ok _ _ h5 in
    let (ms, n) = mutators_ok cl f 0 f.mutators p3 one in
    record {
      format_lem = not-false _ (fail_if_ok _ _ tt p1);
      serializer_lem = serializer_ok cl f.serializer (fail_if_ok _ _ tt p2);
      mutators_lem = ms;
      one_custom = one_of _ n;
      no_key = when_nonempty f.mutators f.primary_key (fail_if_ok _ _ tt p4);
      no_link =
          λ k. is_empty-true _ (not-false _ (when_nonempty f.mutators _ (fail_if_ok _ _ tt p5) k));
      serialized_no_link = λ k.
          is_empty-true _ (not-false _ (when_nonempty f.serializer _ (fail_if_ok _ _ tt p6) k));
      name_lem = fail_if_ok _ _ tt p7;
    }

typed_ok : (t : ProcParameterType) → is_untyped t ≡ false → t ≢ untyped
unfolding is_untyped
typed_ok untyped h = cc
typed_ok input h = λ e. cc
typed_ok output h = λ e. cc
typed_ok input_output h = λ e. cc

pub param_ok :
    (formats : List Bytes) (cl : RecordPackage) (f : ProcFieldDeclaration)
    → check_param formats cl f ≡ ok tt
    → ParamAccepted formats cl f
unfolding check_param
param_ok formats cl f h =
    let (p1, h1) = seq_ok _ _ h in
    let (p2, p3) = seq_ok _ _ h1 in
    record {
      format_lem = not-false _ (fail_if_ok _ _ tt p1);
      serializer_lem = serializer_ok cl f.serializer (fail_if_ok _ _ tt p2);
      typed = typed_ok f.parameter_type (fail_if_ok _ _ tt p3);
    }

pub in_param_ok : (f : ProcFieldDeclaration) → check_in_param f ≡ ok tt → InAccepted f
unfolding check_in_param
in_param_ok f h =
    let (p1, p2) = seq_ok _ _ h in
    (
      not-false _ (fail_if_ok _ _ tt p1),
      elim (Bool-cases (same_bytes f.format (codes "string"))) [
        | inl e ↦ inl (same_bytes_eq _ _ e)
        | inr e ↦ inr (is_empty-false _ (fail_if_ok _ _ tt (rw e at p2)))
      ],
    )
