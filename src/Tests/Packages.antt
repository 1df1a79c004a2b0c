-- ===== src/Tests/Packages.antt =====
-- The declarations of internal/pkg/ds at concrete inputs.
use activerecord.Prelude.{[], ◌∷◌, false, ◌≡◌, refl, arith, pos}
use activerecord.Go.Strings.{codes}
use activerecord.Go.{ok, Bytes}
use activerecord.Package.{ImportPackage, add_import}
use activerecord.Package.Imports.{IsConsistent, Keeps, add_import-IsConsistent}
use activerecord.Package.Records.{
  RecordPackage, new_record_package, FieldDeclaration, ProcFieldDeclaration, IndexDeclaration,
  output, add_index, new_index, selector_of, marked, with_index, complete, num_of,
}

abbrev imported : ImportPackage
imported = record {
  imports = record { path = b'a' ∷ b'/' ∷ b'b' ∷ []; import_name = [] } ∷ [];
  import_map = ((b'a' ∷ b'/' ∷ b'b' ∷ []), 0) ∷ [];
  import_pkg_map = ((b'b' ∷ []), 0) ∷ [];
}

imported-IsConsistent : IsConsistent imported
imported-IsConsistent = record { paths = (omega arith, tt); pkgs = (omega arith, tt) }

add_import-IsConsistent_example : Keeps (add_import imported (b'c' ∷ b'/' ∷ b'b' ∷ []) [])
add_import-IsConsistent_example =
    add_import-IsConsistent imported (b'c' ∷ b'/' ∷ b'b' ∷ []) [] imported-IsConsistent

abbrev id_field : FieldDeclaration
id_field = record {
  name = codes "id";
  format = codes "uint32";
  primary_key = false;
  mutators = [];
  size = pos 0;
  serializer = [];
  object_link = [];
}

abbrev out_field : ProcFieldDeclaration
out_field = record {
  name = codes "x";
  format = codes "uint32";
  parameter_type = output;
  size = pos 0;
  serializer = [];
  order_index = pos 1;
}

abbrev with_one_out : RecordPackage
with_one_out = record new_record_package {
  proc_fields_map = ((b'y' ∷ []), 0) ∷ [];
  proc_out_fields = (pos 1, record out_field { name = b'y' ∷ [] }) ∷ [];
}

abbrev plain_index : Bytes → IndexDeclaration
plain_index name = record {
  name = name;
  num = 0;
  selector = [];
  ind_fields = [];
  fields_map = [];
  primary = false;
  unique = false;
  partial = false;
}

abbrev with_plain : RecordPackage
with_plain = record new_record_package {
  indexes = plain_index (b'a' ∷ []) ∷ [];
  index_map = ((b'a' ∷ []), 0) ∷ [];
  selector_map = ([], 0) ∷ [];
}

first_added : add_index new_record_package (plain_index (b'a' ∷ [])) ≡ ok with_plain
unfolding add_index new_index selector_of marked with_index complete num_of
first_added = refl
