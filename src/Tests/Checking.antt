-- ===== src/Tests/Checking.antt =====
-- The checker on concrete packages.
use activerecord.Go.Numbers.{parse_int}
use activerecord.Prelude.{List, [], ◌∷◌, true, false, ◌≡◌, ◌≢◌, refl, All, pos, ℤ}
use activerecord.Go.{ok, panic, Bytes}
use activerecord.Go.Strings.{codes}
use activerecord.Package.Records.{
  FieldDeclaration, ProcFieldDeclaration, RecordPackage, new_record_package, output,
}
use activerecord.Package.Procedures.{validate, max_index, list_params, write_params, write_param}
use activerecord.Checker.{
  check, check_fields, check_package, check_backend, check_namespace, check_linked_object,
  check_field, unknown_serializer, check_mutators, primary_found, check_for, check_octopus,
  check_number, check_param,
}
use activerecord.Checker.Accepted.{PackageAccepted}
use activerecord.Checker.Accepted.Packages.{check_lem}
use activerecord.Checker.Negative.{check_safe}

abbrev pub user_id : FieldDeclaration
user_id = record {
  name = codes "ID";
  format = codes "uint32";
  primary_key = true;
  mutators = [];
  size = pos 0;
  serializer = [];
  object_link = [];
}

abbrev pub counter : FieldDeclaration
counter = record user_id {
  name = codes "Counter";
  primary_key = false;
  mutators = codes "inc" ∷ codes "set_bit" ∷ [];
}

abbrev pub user : RecordPackage
user = record new_record_package {
  server = record { timeout = pos 0; host = []; port = []; conf = codes "arcfg" };
  namespace = record {
    object_name = codes "2";
    public_name = codes "User";
    package_name = codes "user";
    module_name = [];
  };
  fields = user_id ∷ counter ∷ [];
  backends = codes "octopus" ∷ [];
}

abbrev out_param : ProcFieldDeclaration
out_param = record {
  name = codes "Result";
  format = codes "string";
  parameter_type = output;
  size = pos 0;
  serializer = [];
  order_index = pos 0;
}

abbrev procedure : ℤ → RecordPackage
procedure i = record user { fields = []; proc_out_fields = (i, out_param) ∷ [] }

abbrev files_of : RecordPackage → List (Bytes × RecordPackage)
files_of cl = (codes "model.go", cl) ∷ []

user_accepted : check (files_of user) [] ≡ ok tt
unfolding check check_package check_backend check_namespace check_linked_object check_fields
    validate check_field unknown_serializer check_mutators list_params write_params primary_found
    check_for check_octopus check_number parse_int
user_accepted = refl

procedure_accepted : check (files_of (procedure (pos 0))) [] ≡ ok tt
unfolding check check_package check_backend check_namespace check_linked_object check_fields
    validate max_index list_params write_params write_param check_param unknown_serializer check_for
    check_octopus
procedure_accepted = refl

check_lem_example : All (λ (f : Bytes × RecordPackage). PackageAccepted [] f.1) (files_of user)
check_lem_example = check_lem (files_of user) [] user_accepted

check_safe_example : check (files_of (procedure (pos 0))) [] ≢ panic
check_safe_example = check_safe (files_of (procedure (pos 0))) [] (((0, refl), tt), tt)
