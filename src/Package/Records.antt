-- ===== src/Package/Records.antt =====
-- internal/pkg/ds/package.go, the part of a record: fields, parameters of procedures and indexes, with
-- ProcFieldDeclarations.Add of internal/pkg/ds/app.go. A map from an order index is a list of entries.
pub mod Order
use activerecord.Prelude.{
  ℕ, zero, suc, ◌+◌, ◌%◌, ◌^◌, List, [], ◌∷◌, ◌++◌, length, get_elem?, set, Option, none, some,
  Bool, true, false, not, ◌||◌, ◌&&◌, ◌==◌, ltb, if◌then◌else◌, ℤ, pos, negsuc, int_eq,
}
use activerecord.Go.Strings.{codes, entry, has_entry}
use activerecord.Go.{Result, ok, err, panic, Bytes, ◌>>=◌}
use activerecord.Package.{DeclError, redefined, duplicate, duplicate_order_index, ImportPackage}

-- `format` is the text of an octopus.Format.
pub record FieldDeclaration : Type 0 where
  pub name : Bytes
  pub format : Bytes
  pub primary_key : Bool
  pub mutators : List Bytes
  pub size : ℤ
  pub serializer : List Bytes
  pub object_link : Bytes

-- The bits IN and OUT; `untyped` is 0.
pub data ProcParameterType : Type 0 where
  untyped input output input_output : ProcParameterType

pub record ProcFieldDeclaration : Type 0 where
  pub name : Bytes
  pub format : Bytes
  pub parameter_type : ProcParameterType
  pub size : ℤ
  pub serializer : List Bytes
  pub order_index : ℤ

-- `order_desc` of an index field is IndexOrderDesc.
pub record IndexField : Type 0 where
  pub ind_field : ℕ
  pub order_desc : Bool

-- `num` is a uint8; `ind_fields` are places of fields.
pub record IndexDeclaration : Type 0 where
  pub name : Bytes
  pub num : ℕ
  pub selector : Bytes
  pub ind_fields : List ℕ
  pub fields_map : List (Bytes × IndexField)
  pub primary : Bool
  pub unique : Bool
  pub partial : Bool

pub record FieldObject : Type 0 where
  pub name : Bytes
  pub key : Bytes
  pub object_name : Bytes
  pub field : Bytes
  pub unique : Bool

pub record SerializerDeclaration : Type 0 where
  pub name : Bytes
  pub pkg : Bytes
  pub type_name : Bytes
  pub import_name : Bytes
  pub marshaler : Bytes
  pub unmarshaler : Bytes

pub record PartialFieldDeclaration : Type 0 where
  pub name : Bytes
  pub type_name : Bytes

pub record MutatorDeclaration : Type 0 where
  pub name : Bytes
  pub pkg : Bytes
  pub type_name : Bytes
  pub import_name : Bytes
  pub update : Bytes
  pub replace : Bytes
  pub partial_fields : List PartialFieldDeclaration

pub record TriggerDeclaration : Type 0 where
  pub name : Bytes
  pub pkg : Bytes
  pub func : Bytes
  pub import_name : Bytes
  pub params : List Bytes

pub record FlagDeclaration : Type 0 where
  pub name : Bytes
  pub flags : List Bytes

pub record NamespaceDeclaration : Type 0 where
  pub object_name : Bytes
  pub public_name : Bytes
  pub package_name : Bytes
  pub module_name : Bytes

pub record ServerDeclaration : Type 0 where
  pub timeout : ℤ
  pub host : Bytes
  pub port : Bytes
  pub conf : Bytes

pub record RecordPackage : Type 0 where
  pub import_package : ImportPackage
  pub server : ServerDeclaration
  pub namespace : NamespaceDeclaration
  pub fields : List FieldDeclaration
  pub fields_map : List (Bytes × ℕ)
  pub fields_object_map : List (Bytes × FieldObject)
  pub indexes : List IndexDeclaration
  pub index_map : List (Bytes × ℕ)
  pub selector_map : List (Bytes × ℕ)
  pub backends : List Bytes
  pub serializer_map : List (Bytes × SerializerDeclaration)
  pub mutator_map : List (Bytes × MutatorDeclaration)
  pub trigger_map : List (Bytes × TriggerDeclaration)
  pub flag_map : List (Bytes × FlagDeclaration)
  pub proc_in_fields : List ProcFieldDeclaration
  pub proc_out_fields : List (ℤ × ProcFieldDeclaration)
  pub proc_fields_map : List (Bytes × ℕ)

abbrev pub new_import_package : ImportPackage
new_import_package = record { imports = []; import_map = []; import_pkg_map = [] }

abbrev pub new_record_package : RecordPackage
new_record_package = record {
  import_package = new_import_package;
  server = record { timeout = pos 0; host = []; port = []; conf = [] };
  namespace = record { object_name = []; public_name = []; package_name = []; module_name = [] };
  fields = [];
  fields_map = [];
  fields_object_map = [];
  indexes = [];
  index_map = [];
  selector_map = [];
  backends = [];
  serializer_map = [];
  mutator_map = [];
  trigger_map = [];
  flag_map = [];
  proc_in_fields = [];
  proc_out_fields = [];
  proc_fields_map = [];
}

-- The package after the call, and its error.
abbrev pub Added : Type 0
Added = RecordPackage × Option DeclError

appended : RecordPackage → FieldDeclaration → RecordPackage
appended rc f = record rc {
  fields = rc.fields ++ (f ∷ []);
  fields_map = (f.name, length rc.fields) ∷ rc.fields_map;
}

pub add_field : RecordPackage → FieldDeclaration → Added
add_field rc f = elim (entry f.name rc.fields_map) [
  | some i ↦ (rc, some redefined)
  | none ↦ (appended rc f, none)
]

unfoldable pub at_order : ℤ → List (ℤ × ProcFieldDeclaration) → Option ProcFieldDeclaration
at_order i [] = none
at_order i ((j, f) ∷ m) = let rest = at_order i m in if int_eq j i then some f else rest

pub add_proc_out :
    List (ℤ × ProcFieldDeclaration)
    → ProcFieldDeclaration
    → Result DeclError (List (ℤ × ProcFieldDeclaration))
add_proc_out m f = elim (at_order f.order_index m) [
  | some g ↦ err duplicate_order_index
  | none ↦ ok ((f.order_index, f) ∷ m)
]

is_input : ProcParameterType → Bool
is_input input = true
is_input output = false
is_input input_output = true
is_input untyped = false

unfoldable pub is_output : ProcParameterType → Bool
is_output input = false
is_output output = true
is_output input_output = true
is_output untyped = false

with_out : RecordPackage → Result DeclError (List (ℤ × ProcFieldDeclaration)) → Added
with_out rc (ok m) = (record rc { proc_out_fields = m }, none)
with_out rc (err e) = (rc, some e)
with_out rc panic = (rc, none)

-- The name of the parameter, and the parameter if it is an input one.
with_in : RecordPackage → ProcFieldDeclaration → RecordPackage
with_in rc f = record rc {
  proc_fields_map = (f.name, length rc.proc_fields_map) ∷ rc.proc_fields_map;
  proc_in_fields =
      if is_input f.parameter_type then rc.proc_in_fields ++ (f ∷ []) else rc.proc_in_fields;
}

-- An error of the output parameters comes after the other changes, which stay. Each name stands once
-- in `proc_fields_map`, so that the length of the list is the length of the map.
pub add_proc_field : RecordPackage → ProcFieldDeclaration → Added
add_proc_field rc f = elim (entry f.name rc.proc_fields_map) [
  | some i ↦ (rc, some redefined)
  | none ↦
      if is_output f.parameter_type
      then with_out (with_in rc f) (add_proc_out rc.proc_out_fields f)
      else (with_in rc f, none)
]

-- `"SelectBy" + ind.Name` for an index that is primary or unique and has no selector.
unfoldable pub default_selector : Bytes → Bytes → Bytes
default_selector [] name = codes "SelectBy" ++ name
default_selector (c ∷ cs) name = c ∷ cs

unfoldable pub selector_of : IndexDeclaration → Bytes
selector_of ind =
    if ind.primary || ind.unique then default_selector ind.selector ind.name else ind.selector

-- `rc.Fields[ind.Fields[fInd]].PrimaryKey = true`, which panics out of range.
unfoldable pub mark_primary :
    List ℕ → List FieldDeclaration → Result DeclError (List FieldDeclaration)
mark_primary [] fs = ok fs
mark_primary (i ∷ is) fs = elim (get_elem? fs i) [
  | none ↦ panic
  | some f ↦ mark_primary is (set fs i (record f { primary_key = true }))
]

unfoldable pub marked :
    IndexDeclaration → List FieldDeclaration → Result DeclError (List FieldDeclaration)
marked ind fs = if ind.primary then mark_primary ind.ind_fields fs else ok fs

unfoldable pub last_num : List IndexDeclaration → ℕ → ℕ
last_num [] n = n
last_num (i ∷ is) n = last_num is i.num

-- `rc.Indexes[len(rc.Indexes)-1].Num + 1` wraps around.
unfoldable pub num_of : List IndexDeclaration → IndexDeclaration → ℕ
num_of is ind =
    if not ind.partial && (ind.num == 0 && ltb 0 (length is))
    then (last_num is 0 + 1) % 2 ^ 8
    else ind.num

unfoldable pub complete : RecordPackage → IndexDeclaration → IndexDeclaration
complete rc ind = record ind {
  selector = selector_of ind;
  unique = ind.primary || ind.unique;
  num = num_of rc.indexes ind;
}

unfoldable pub with_index : RecordPackage → IndexDeclaration → List FieldDeclaration → RecordPackage
with_index rc ind fs = record rc {
  fields = fs;
  index_map = (ind.name, length rc.indexes) ∷ rc.index_map;
  selector_map = (ind.selector, length rc.indexes) ∷ rc.selector_map;
  indexes = rc.indexes ++ (ind ∷ []);
}

unfoldable pub new_index : RecordPackage → IndexDeclaration → Result DeclError RecordPackage
new_index rc ind = do fs ← marked ind rc.fields; ok (with_index rc (complete rc ind) fs)

unfoldable pub add_index : RecordPackage → IndexDeclaration → Result DeclError RecordPackage
add_index rc ind = elim (entry ind.name rc.index_map) [
  | some i ↦ err redefined
  | none ↦ elim (entry (selector_of ind) rc.selector_map) [
    | some i ↦ err redefined
    | none ↦ new_index rc ind
  ]
]

-- The remaining maps: a name that is taken is refused. AddPartialField is AddMutator again.
pub add_field_object : RecordPackage → FieldObject → Result DeclError RecordPackage
add_field_object rc fo =
    if has_entry fo.name rc.fields_object_map
    then err redefined
    else ok (record rc { fields_object_map = (fo.name, fo) ∷ rc.fields_object_map })

pub add_trigger : RecordPackage → TriggerDeclaration → Result DeclError RecordPackage
add_trigger rc t =
    if has_entry t.name rc.trigger_map
    then err redefined
    else ok (record rc { trigger_map = (t.name, t) ∷ rc.trigger_map })

pub add_serializer : RecordPackage → SerializerDeclaration → Result DeclError RecordPackage
add_serializer rc d =
    if has_entry d.name rc.serializer_map
    then err redefined
    else ok (record rc { serializer_map = (d.name, d) ∷ rc.serializer_map })

pub add_flag : RecordPackage → FlagDeclaration → Result DeclError RecordPackage
add_flag rc f =
    if has_entry f.name rc.flag_map
    then err duplicate
    else ok (record rc { flag_map = (f.name, f) ∷ rc.flag_map })

pub add_mutator : RecordPackage → MutatorDeclaration → Result DeclError RecordPackage
add_mutator rc m =
    if has_entry m.name rc.mutator_map
    then err redefined
    else ok (record rc { mutator_map = (m.name, m) ∷ rc.mutator_map })

pub add_partial_field : RecordPackage → MutatorDeclaration → Result DeclError RecordPackage
add_partial_field rc m =
    if has_entry m.name rc.mutator_map
    then err redefined
    else ok (record rc { mutator_map = (m.name, m) ∷ rc.mutator_map })
