-- ===== src/Tests/Generating.antt =====
-- A run of the generator over a package that links to itself.
use activerecord.Prelude.{
  Bool, not, Bool-cases, inl, inr, List, [], ◌∷◌, ◌++◌, All, true, false, if◌then◌else◌, ◌≡◌, refl,
}
use activerecord.Go.{ok, Bytes}
use activerecord.Go.Strings.{codes, among, same_bytes, same_bytes_refl, strip_prefix}
use activerecord.Go.Numbers.{parse_int}
use activerecord.Package.Records.{FieldObject, RecordPackage}
use activerecord.Package.Procedures.{validate, list_params, write_params}
use activerecord.Checker.{
  check, check_fields, check_package, check_backend, check_namespace, check_linked_object,
  check_field, unknown_serializer, check_mutators, primary_found, check_for, check_octopus,
  check_number,
}
use activerecord.App.{
  regular, dir, GenerateFile, ArGen, Environment, get_exists, dir_files, is_regular, is_dir,
  is_go_file, is_pkg_name, add_record_package, without_suffix, put_package, link_packages,
  link_objects, prepare_check, parse_one, parse_all, write_to_file, save_files, generate_packages,
  generate, prepared, run, Disk, remove_all,
}
use activerecord.App.Leftover.{paths}
use activerecord.App.Cleaning.{IsOsRemove}
use activerecord.App.Removal.{Fate, removed_lem}
use activerecord.App.Links.{Leads, links_lem}
use activerecord.Tests.Checking.{user}

abbrev friend : FieldObject
friend = record {
  name = codes "Friend";
  key = codes "ID";
  object_name = codes "user";
  field = codes "ID";
  unique = true;
}

abbrev linked_user : RecordPackage
linked_user = record user { fields_object_map = (codes "Friend", friend) ∷ [] }

-- Of these paths only one is a directory.
abbrev not_dir : Bytes → Bool
not_dir f = not (same_bytes f (codes "d/user"))

-- The old directory has one file. The package is generated into one file, the metadata into another.
abbrev a_world : Environment
a_world = record {
  join = λ a b. a ++ (codes "/" ++ b);
  read_dir = λ p. ok (record { name = codes "a.go"; type_of = regular } ∷ []);
  parse_file = λ p rc. ok linked_user;
  write = λ d f. ok tt;
  generator = λ rc objects. ok (record { gen_dir = codes "user"; gen_name = codes "u.go" } ∷ []);
  generate_meta = λ m. ok [];
  after_writing =
      λ files f. among f (codes "d/user" ∷ (codes "d/user/u.go" ∷ (codes "d/user/a.go" ∷ [])));
  order = λ xs. xs;
  remove = λ name d f. if same_bytes f name then (if not_dir name then false else d f) else d f;
}

abbrev at_first : ArGen
at_first = record {
  dst = codes "d";
  mod_name = codes "m";
  src_entry = record { name = codes "user.go"; type_of = regular } ∷ [];
  dst_entry = record { name = codes "old"; type_of = dir } ∷ [];
  packages_parsed = [];
  packages_linked = [];
  file_to_remove = [];
}

abbrev in_place : RecordPackage
in_place = record linked_user {
  namespace = record (user.namespace) { module_name = codes "m/d/user" };
}

abbrev ready : ArGen
ready = record at_first {
  packages_parsed = (codes "user", in_place) ∷ [];
  packages_linked = (codes "user", codes "user") ∷ [];
  file_to_remove = codes "d/old" ∷ codes "d/old/a.go" ∷ [];
}

made_ready : prepared a_world (codes "s") at_first ≡ ok ready
unfolding prepared parse_all parse_one is_regular without_suffix add_record_package is_pkg_name
    put_package prepare_check get_exists dir_files is_dir is_go_file link_packages check
    check_package check_backend check_namespace check_linked_object check_fields validate
    check_field unknown_serializer check_mutators list_params write_params primary_found check_for
    check_octopus check_number parse_int
made_ready = refl

links_lem_example :
    All
      (λ (kp : Bytes × RecordPackage). All (Leads ready) kp.1.fields_object_map)
      ready.packages_parsed
links_lem_example = links_lem a_world (codes "s") at_first ready refl made_ready

-- The directory of the package was there, with a file that is generated again and one that is not.
abbrev old_world : Environment
old_world = record a_world {
  read_dir = λ p. ok (
      record { name = codes "u.go"; type_of = regular }
      ∷ (record { name = codes "a.go"; type_of = regular } ∷ []));
  parse_file = λ p rc. ok user;
}

abbrev before_run : ArGen
before_run = record at_first { dst_entry = record { name = codes "user"; type_of = dir } ∷ [] }

abbrev saved : List GenerateFile
saved = record { gen_dir = codes "user"; gen_name = codes "u.go" } ∷ []

-- What is left of the old directory is removed; the directory itself was saved to.
abbrev after_run : Disk
after_run = remove_all old_world.remove (codes "d/user/a.go" ∷ []) (old_world.after_writing saved)

one_removed : run old_world (codes "s") before_run ≡ ok (after_run, saved)
unfolding run generate generate_packages link_objects save_files write_to_file strip_prefix prepared
    parse_all parse_one is_regular without_suffix add_record_package is_pkg_name put_package
    prepare_check get_exists dir_files is_dir is_go_file link_packages check check_package
    check_backend check_namespace check_linked_object check_fields validate check_field
    unknown_serializer check_mutators list_params write_params primary_found check_for check_octopus
    check_number parse_int remove_all
one_removed = refl

removes : IsOsRemove old_world.remove not_dir
removes = record {
  others = λ f name d e. rw (e, if◌then◌else◌) refl;
  one = λ name d. elim (Bool-cases (not_dir name)) [
    | inl k ↦ inr (rw (same_bytes_refl name, k, if◌then◌else◌) refl)
    | inr k ↦ inl (rw (same_bytes_refl name, k, if◌then◌else◌) refl)
  ];
  file = λ name d k. rw (same_bytes_refl name, k, if◌then◌else◌) refl;
}

removed_lem_example :
    (exists : List Bytes) × (get_exists old_world.join old_world.read_dir before_run.dst
        before_run.dst_entry
      ≡ ok exists)
    × ((f : Bytes)
        → Fate
            (among f (paths old_world.join before_run.dst saved))
            (among f (exists ++ before_run.file_to_remove))
            (not_dir f)
            (old_world.after_writing saved f)
            (after_run f))
removed_lem_example =
    removed_lem old_world not_dir (codes "s") before_run after_run saved removes (λ g xs. refl)
      one_removed
