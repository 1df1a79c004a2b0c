-- ===== src/Checker/Accepted/Packages.antt =====
-- Packages that are accepted.
use activerecord.Prelude.{
  List, [], ◌∷◌, length, length-set, length-replicate, some, true, false, not, ◌&&◌, ◌||◌, ltb,
  ltb→lt, ◌≡◌, ◌≢◌, ◌⊎◌, inl, inr, refl, sym, ap, subst, ◌∙◌, All, Option-cases, Bool-cases, ℤ, pos,
  negsuc,
}
use activerecord.Go.{ok, Bytes, fail_if_ok, bind_ok, ok_same, seq_ok, each, each_ok}
use activerecord.Go.Strings.{codes, is_empty, same_bytes, same_bytes_eq}
use activerecord.Go.Numbers.{parse_int}
use activerecord.Package.Records.{FieldDeclaration, ProcFieldDeclaration, RecordPackage}
use activerecord.Package.Procedures.{write_param, write_params, list_params}
use activerecord.Checker.{
  CheckError, check_fields, check_backend, check_namespace, check_linked_object, check_number,
  check_octopus, check_for, check_package, check, primary_found, all_format, all_proc_format,
}
use activerecord.Checker.Accepted.{InOrder, HasPrimary, PackageAccepted}
use activerecord.Checker.Accepted.Fields.{
  not-false, is_empty-false, when_nonempty, field_ok, param_ok, in_param_ok,
}

All-mono :
    {A : Type 0} {P Q : A → Type 0} (xs : List A) → ((x : A) → P x → Q x) → All P xs → All Q xs
All-mono [] f h = tt
All-mono (x ∷ xs) f h = (f x h.0, All-mono xs f h.1)

write_param_ok :
    (out out' : List ProcFieldDeclaration) (p : ℤ × ProcFieldDeclaration)
    → write_param {E = CheckError} out p ≡ ok out'
    → InOrder (length out) p × (length out' ≡ length out)
unfolding write_param
write_param_ok out out' (pos i, f) h = elim (Bool-cases (ltb i (length out))) [
  | inl e ↦ (
    (i, refl, ltb→lt _ _ e),
    let h' = rw e at h in ap length (sym (ok_same h')) ∙ length-set out i f,
  )
  | inr e ↦ (let h' = rw e at h in cc)
]
write_param_ok out out' (negsuc i, f) h = cc

write_params_ok :
    (out outs : List ProcFieldDeclaration) (m : List (ℤ × ProcFieldDeclaration))
    → write_params {E = CheckError} out m ≡ ok outs
    → All (InOrder (length out)) m
unfolding write_params
write_params_ok out outs [] h = tt
write_params_ok out outs (p ∷ m) h =
    let (out', e, e') = bind_ok (write_param {E = CheckError} out p) (λ o. write_params o m) h in
    let (a, b) = write_param_ok out out' p e in
    (a, subst (λ n. All (InOrder n) m) b (write_params_ok out' outs m e'))

primary_found_lem : (fs : List FieldDeclaration) → primary_found fs ≡ true → HasPrimary fs
unfolding primary_found
primary_found_lem [] h = cc
primary_found_lem (f ∷ fs) h = elim (Bool-cases f.primary_key) [
  | inl e ↦ inl e
  | inr e ↦ (let h' = rw e at h in inr (primary_found_lem fs h'))
]

backend_ok :
    (cl : RecordPackage) (bs : List Bytes)
    → check_backend (record cl { backends = bs }) ≡ ok tt
    → each (check_for cl) bs ≡ ok tt
    → (bs ≡ codes "octopus" ∷ []) × (check_octopus cl ≡ ok tt)
unfolding check_backend check_for
backend_ok cl [] h k = cc
backend_ok cl (b ∷ []) h k =
    let (p, q) = seq_ok (check_for cl b) (ok tt) k in
    elim (Bool-cases (same_bytes b (codes "octopus"))) [
      | inl e ↦ (ap (λ x. x ∷ []) (same_bytes_eq b (codes "octopus") e), rw e at p)
      | inr e ↦ (let p' = rw e at p in cc)
    ]
backend_ok cl (b ∷ c ∷ bs) h k = cc

number_ok :
    (fs : List FieldDeclaration) (s : Bytes)
    → elim fs [ [] ↦ ok tt | f ∷ fs' ↦ check_number s ] ≡ ok tt
    → fs ≢ []
    → (n : ℤ) × (parse_int s ≡ some n)
unfolding check_number
number_ok [] s h k = absurd (k refl)
number_ok (f ∷ fs) s h k = elim (Option-cases (parse_int s)) [
  | inl e ↦ (let h' = rw (e, check_number) at h in cc)
  | inr a ↦ a
]

server_ok :
    (host port conf : Bytes)
    → (is_empty host && is_empty conf) ≡ false
    → (is_empty host && not (is_empty port)) ≡ false
    → (not (is_empty host) && not (is_empty conf)) ≡ false
    → ((host ≢ []) × (conf ≡ [])) ⊎ ((host ≡ []) × (port ≡ []) × (conf ≢ []))
server_ok [] port [] a b c = cc
server_ok [] [] (x ∷ xs) a b c = inr (refl, refl, λ e. cc)
server_ok [] (y ∷ ys) (x ∷ xs) a b c = cc
server_ok (z ∷ zs) port [] a b c = inl (λ e. cc, refl)
server_ok (z ∷ zs) port (x ∷ xs) a b c = cc

kind_ok :
    {A B : Type 0} (fs : List A) (ps : List B)
    → (not (is_empty fs) && not (is_empty ps)) ≡ false
    → (is_empty fs && is_empty ps) ≡ false
    → ((fs ≢ []) × (ps ≡ [])) ⊎ ((fs ≡ []) × (ps ≢ []))
kind_ok [] [] a b = cc
kind_ok [] (p ∷ ps) a b = inr (refl, λ e. cc)
kind_ok (f ∷ fs) [] a b = inl (λ e. cc, refl)
kind_ok (f ∷ fs) (p ∷ ps) a b = cc

neither_empty :
    {A : Type 0} (xs ys : List A) → (is_empty xs || is_empty ys) ≡ false → (xs ≢ []) × (ys ≢ [])
neither_empty [] ys h = cc
neither_empty (x ∷ xs) [] h = cc
neither_empty (x ∷ xs) (y ∷ ys) h = (λ e. cc, λ e. cc)

package_ok :
    (linked : List (Bytes × Bytes)) (cl : RecordPackage)
    → check_package linked cl ≡ ok tt
    → PackageAccepted linked cl
unfolding check_package check_namespace check_linked_object check_fields check_octopus list_params
package_ok linked cl h =
    let (a1, h1) = seq_ok _ _ h in
    let (a2, h2) = seq_ok _ _ h1 in
    let (a3, h3) = seq_ok _ _ h2 in
    let (f, h4) = seq_ok _ _ h3 in
    let (b, o) = backend_ok cl cl.backends a1 h4 in
    let (f1, g1) = seq_ok _ _ f in
    let (f2, g2) = seq_ok _ _ g1 in
    let (f3, g3) = seq_ok _ _ g2 in
    let (outs, f4, g4) = bind_ok (list_params {E = CheckError} cl.proc_out_fields) _ g3 in
    let (f5, g5) = seq_ok _ _ g4 in
    let (f6, g6) = seq_ok _ _ g5 in
    let (f7, f8) = seq_ok _ _ g6 in
    let (o1, p1) = seq_ok _ _ o in
    let (o2, p2) = seq_ok _ _ p1 in
    let (o3, p3) = seq_ok _ _ p2 in
    let (o4, p4) = seq_ok _ _ p3 in
    let (o5, o6) = seq_ok _ _ p4 in
    let (n1, n2) = neither_empty _ _ (fail_if_ok _ _ tt a2) in
    record {
      backend_lem = b;
      package_named = n1;
      public_named = n2;
      linked_lem =
          All-mono cl.fields_object_map (λ x e. not-false _ (fail_if_ok _ _ tt e)) (each_ok _ _ a3);
      fields_lem = All-mono cl.fields (field_ok cl) (each_ok _ _ f3);
      outs_lem = (outs, f4, All-mono outs (param_ok all_format cl) (each_ok _ _ f5));
      in_order =
          subst (λ n. All (InOrder n) cl.proc_out_fields) (length-replicate _ _)
            (write_params_ok _ outs cl.proc_out_fields f4);
      ins_lem = All-mono cl.proc_in_fields (param_ok all_proc_format cl) (each_ok _ _ f6);
      octopus_ins_lem = All-mono cl.proc_in_fields in_param_ok (each_ok _ _ o6);
      one_kind = kind_ok cl.fields cl.proc_out_fields (fail_if_ok _ _ tt f1) (fail_if_ok _ _ tt f7);
      primary_lem = λ k.
          primary_found_lem cl.fields
            (not-false _ (when_nonempty cl.fields _ (fail_if_ok _ _ tt f8) k));
      numbered = number_ok cl.fields _ o5;
      server_lem =
          server_ok _ _ _ (fail_if_ok _ _ tt o1) (fail_if_ok _ _ tt o2) (fail_if_ok _ _ tt o3);
      indexes_lem =
          All-mono cl.indexes (λ x e. is_empty-false _ (fail_if_ok _ _ tt e)) (each_ok _ _ o4);
    }

-- When the checker accepts the packages, each of them has octopus as its only backend, names, exactly
-- one of entity fields and output parameters, formats and serializers that are known, mutators that
-- are built in or declared and agree with the other tags of their field, a primary key, order
-- indexes of parameters without a gap, a numeric space, one description of the server, and no index
-- without fields.
pub check_lem :
    (files : List (Bytes × RecordPackage)) (linked : List (Bytes × Bytes))
    → check files linked ≡ ok tt
    → All (λ (f : Bytes × RecordPackage). PackageAccepted linked f.1) files
unfolding check
check_lem files linked h = All-mono files (λ f e. package_ok linked f.1 e) (each_ok _ files h)
