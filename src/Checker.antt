-- ===== src/Checker.antt =====
-- internal/pkg/checker/checker.go: what a package must be like before code is generated from it. A
-- map is a list of entries in the order in which Go runs through it. The warning that is logged about
-- a field without a size has no effect on the result.
pub mod Accepted
pub mod Negative
use activerecord.Prelude.{
  ℕ, ◌+◌, List, [], ◌∷◌, Option, none, some, Bool, true, false, not, ◌&&◌, ◌||◌, ◌==◌, ltb,
  if◌then◌else◌, ℤ,
}
use activerecord.Go.{Result, ok, err, panic, Bytes, ◌>>=◌, ◌>>◌, fail_if, each}
use activerecord.Go.Strings.{codes, same_bytes, is_empty, among, entry, has_entry}
use activerecord.Go.Numbers.{parse_int}
use activerecord.Package.Records.{
  FieldDeclaration, FieldObject, IndexDeclaration, MutatorDeclaration, NamespaceDeclaration,
  ProcFieldDeclaration, ProcParameterType, untyped, input, output, input_output, RecordPackage,
  SerializerDeclaration,
}
use activerecord.Package.Procedures.{list_params, validate, field_mutators}

-- The sentinels of internal/pkg/arerror/checker.go and parse.go that a returned error wraps.
pub data CheckError : Type 0 where
  backend_empty backend_to_match backend_unknown object_not_found empty_namespace : CheckError
  fields_many_decl fields_order_decl invalid_format serializer_not_found : CheckError
  mutator_invalid mutator_type_has_not_serializer : CheckError
  mutator_conflict_pk mutator_conflict_object serializer_conflict_object : CheckError
  name_redefined param_type_not_found fields_empty primary_not_exist : CheckError
  server_empty port_empty server_conflict index_empty object_name_format : CheckError

abbrev pub Check : Type 0
Check = Result CheckError (Unit {0})

-- octopus.AllFormat and octopus.AllProcFormat
abbrev pub plain_formats : List Bytes → List Bytes
plain_formats more =
    codes "uint8"
    ∷ codes "uint16"
    ∷ codes "uint32"
    ∷ codes "uint64"
    ∷ codes "uint"
    ∷ codes "int8"
    ∷ codes "int16"
    ∷ codes "int32"
    ∷ codes "int64"
    ∷ codes "int"
    ∷ codes "float32"
    ∷ codes "float64"
    ∷ codes "string"
    ∷ codes "bool"
    ∷ more

abbrev pub all_format : List Bytes
all_format = plain_formats []

abbrev pub all_proc_format : List Bytes
all_proc_format = plain_formats (codes "[]string" ∷ codes "[]byte" ∷ [])

unfoldable pub check_backend : RecordPackage → Check
check_backend cl = elim (cl.backends) [
  | [] ↦ err backend_empty
  | b ∷ bs ↦ fail_if (not (is_empty bs)) backend_to_match
]

unfoldable pub check_linked_object : RecordPackage → List (Bytes × Bytes) → Check
check_linked_object cl linked =
    each
      (λ (kf : Bytes × FieldObject).
        fail_if (not (has_entry kf.1.object_name linked)) object_not_found)
      cl.fields_object_map

unfoldable pub check_namespace : NamespaceDeclaration → Check
check_namespace ns = fail_if (is_empty ns.package_name || is_empty ns.public_name) empty_namespace

-- `len(fld.Serializer) > 0` and a map without `fld.Serializer[0]`.
unfoldable pub unknown_serializer : RecordPackage → List Bytes → Bool
unknown_serializer cl [] = false
unknown_serializer cl (s ∷ ss) = is_empty cl.serializer_map || not (has_entry s cl.serializer_map)

-- The loop over the mutators of a field, and `customMutCnt`. A mutator that is built in has no partial
-- fields.
unfoldable pub check_mutators : RecordPackage → FieldDeclaration → ℕ → List Bytes → Check
check_mutators cl fld custom [] = ok tt
check_mutators cl fld custom (m ∷ ms) = elim (entry m cl.mutator_map) [
  | some md ↦
      fail_if (ltb 1 (custom + 1)) mutator_invalid
      >> (fail_if (not (is_empty md.partial_fields) && is_empty fld.serializer)
            mutator_type_has_not_serializer
          >> check_mutators cl fld (custom + 1) ms)
  | none ↦ fail_if (not (among m field_mutators)) mutator_invalid >> check_mutators cl fld custom ms
]

unfoldable pub check_field : RecordPackage → FieldDeclaration → Check
check_field cl fld = do
  fail_if (not (among fld.format all_format)) invalid_format
  fail_if (unknown_serializer cl fld.serializer) serializer_not_found
  check_mutators cl fld 0 fld.mutators
  fail_if (not (is_empty fld.mutators) && fld.primary_key) mutator_conflict_pk
  fail_if (not (is_empty fld.mutators) && not (is_empty fld.object_link)) mutator_conflict_object
  fail_if (not (is_empty fld.serializer) && not (is_empty fld.object_link))
      serializer_conflict_object
  fail_if (has_entry fld.name cl.fields_object_map) name_redefined

unfoldable pub is_untyped : ProcParameterType → Bool
is_untyped untyped = true
is_untyped input = false
is_untyped output = false
is_untyped input_output = false

-- One parameter of a procedure; the formats differ for output and for input.
unfoldable pub check_param : List Bytes → RecordPackage → ProcFieldDeclaration → Check
unfolding is_untyped
check_param formats cl fld = do
  fail_if (not (among fld.format formats)) invalid_format
  fail_if (unknown_serializer cl fld.serializer) serializer_not_found
  fail_if (is_untyped fld.parameter_type) param_type_not_found

-- `primaryFound`
unfoldable pub primary_found : List FieldDeclaration → Bool
primary_found [] = false
primary_found (f ∷ fs) = f.primary_key || primary_found fs

unfoldable pub check_fields : RecordPackage → Check
check_fields cl = do
  fail_if (not (is_empty cl.fields) && not (is_empty cl.proc_out_fields)) fields_many_decl
  fail_if (not (validate cl.proc_out_fields)) fields_order_decl
  each (check_field cl) cl.fields
  outs ← list_params cl.proc_out_fields
  each (check_param all_format cl) outs
  each (check_param all_proc_format cl) cl.proc_in_fields
  fail_if (is_empty cl.fields && is_empty cl.proc_out_fields) fields_empty
  fail_if (not (is_empty cl.fields) && not (primary_found cl.fields)) primary_not_exist

abbrev pub octopus_in_formats : List Bytes
octopus_in_formats = codes "string" ∷ codes "[]string" ∷ codes "[]byte" ∷ []

unfoldable pub check_in_param : ProcFieldDeclaration → Check
check_in_param fld = do
  fail_if (not (among fld.format octopus_in_formats)) invalid_format
  fail_if (not (same_bytes fld.format (codes "string")) && is_empty fld.serializer)
      serializer_not_found

unfoldable pub check_number : Bytes → Check
check_number s = elim (parse_int s) [ some n ↦ ok tt | none ↦ err object_name_format ]

unfoldable pub check_octopus : RecordPackage → Check
check_octopus cl = do
  fail_if (is_empty cl.server.host && is_empty cl.server.conf) server_empty
  fail_if (is_empty cl.server.host && not (is_empty cl.server.port)) port_empty
  fail_if (not (is_empty cl.server.host) && not (is_empty cl.server.conf)) server_conflict
  each (λ (ind : IndexDeclaration). fail_if (is_empty ind.ind_fields) index_empty) cl.indexes
  elim (cl.fields) [ [] ↦ ok tt | f ∷ fs ↦ check_number cl.namespace.object_name ]
  each check_in_param cl.proc_in_fields

unfoldable pub check_for : RecordPackage → Bytes → Check
check_for cl backend =
    if same_bytes backend (codes "octopus") then check_octopus cl else err backend_unknown

unfoldable pub check_package : List (Bytes × Bytes) → RecordPackage → Check
check_package linked cl = do
  check_backend cl
  check_namespace cl.namespace
  check_linked_object cl linked
  check_fields cl
  each (check_for cl) cl.backends

unfoldable pub check : List (Bytes × RecordPackage) → List (Bytes × Bytes) → Check
check files linked = each (λ (f : Bytes × RecordPackage). check_package linked f.1) files
