-- ===== src/Parser/Links.antt =====
-- internal/pkg/parser/flag.go, fieldobject.go, trigger.go and import.go: what refers to the fields of
-- an entity, and to other packages.
pub mod Flags
use activerecord.Prelude.{
  ℕ, List, [], ◌∷◌, ◌++◌, length, get_elem?, set, Option, none, some, Bool, true, false, ◌==◌,
  if◌then◌else◌,
}
use activerecord.Go.{Result, ok, err, panic, Bytes, ◌>>=◌, ◌>>◌, fail_if}
use activerecord.Go.Strings.{codes, same_bytes, among, is_empty, split_on, trim, entry}
use activerecord.Package.{ImportPackage, ImportDeclaration, add_import, find_or_add_import}
use activerecord.Package.Records.{
  FieldDeclaration, FieldObject, FlagDeclaration, TriggerDeclaration, RecordPackage,
  add_field_object, add_flag, add_trigger,
}
use activerecord.Package.Procedures.{set_bit_mutator, clear_bit_mutator}
use activerecord.Parser.{
  Expr, ident, slice_type, array_type, interface_type, star, map_type, selector, other_expr, Field,
  ParseError, unknown, tag_unknown, field_not_exist, type_not_bool, type_not_slice,
  trigger_package_not_defined, declared, only_name, ident_name,
}
use activerecord.Parser.Tags.{Param, value, split_tag, check_bool_type}
use activerecord.Parser.Fields.{unknown_tag}

-- The mutators of a field with flags. `foundSet` and `foundClear` are set by the same test, whether a
-- mutator is `set_bit`.
unfoldable pub flag_mutators : List Bytes → List Bytes
flag_mutators ms =
    ms
    ++ ((if among set_bit_mutator ms then [] else set_bit_mutator ∷ [])
        ++ (if among set_bit_mutator ms then [] else clear_bit_mutator ∷ []))

-- `dst.Fields[n]` panics out of range.
unfoldable pub change_field :
    RecordPackage → ℕ → (FieldDeclaration → FieldDeclaration) → Result ParseError RecordPackage
change_field dst n f = elim (get_elem? dst.fields n) [
  | none ↦ panic
  | some fld ↦ ok (record dst { fields = set dst.fields n (f fld) })
]

-- `dst.FieldsMap[name]`
unfoldable pub field_place : RecordPackage → Bytes → Result ParseError ℕ
field_place dst name = elim (entry name dst.fields_map) [
  | none ↦ err field_not_exist
  | some n ↦ ok n
]

unfoldable pub flag_tag : FlagDeclaration → Param → Result ParseError FlagDeclaration
flag_tag f kv =
    if same_bytes kv.0 (codes "flags")
    then (do v ← value kv; ok (record f { flags = split_on b',' v }))
    else unknown_tag kv

unfoldable pub flag_tags : FlagDeclaration → List Param → Result ParseError FlagDeclaration
flag_tags f [] = ok f
flag_tags f (kv ∷ kvs) = do f' ← flag_tag f kv; flag_tags f' kvs

unfoldable pub parse_flag : RecordPackage → Field → Result ParseError RecordPackage
parse_flag dst field = do
  name ← only_name field.names
  kvs ← split_tag field.tag true []
  f ← flag_tags (record { name = name; flags = [] }) kvs
  n ← field_place dst name
  dst' ← change_field dst n (λ fld. record fld { mutators = flag_mutators fld.mutators })
  declared (add_flag dst' f)

unfoldable pub parse_flags : RecordPackage → List Field → Result ParseError RecordPackage
parse_flags dst [] = ok dst
parse_flags dst (field ∷ fields) = do dst' ← parse_flag dst field; parse_flags dst' fields

-- Whether the link is to one object. The error message of an array reads its element type.
unfoldable pub link_unique : Expr → Result ParseError Bool
link_unique (ident n) = do check_bool_type (ident n); ok true
link_unique (slice_type t) = do
  n ← ident_name t
  if same_bytes n (codes "bool") then ok false else err type_not_bool
link_unique (array_type l t) = do n ← ident_name t; err type_not_slice
link_unique interface_type = err unknown
link_unique (star t) = err unknown
link_unique (map_type k v) = err unknown
link_unique (selector x s) = err unknown
link_unique other_expr = err unknown

-- The link, and the package with the field that names the link.
unfoldable pub link_tag :
    RecordPackage × FieldObject → Param → Result ParseError (RecordPackage × FieldObject)
link_tag (dst, fo) kv =
    if same_bytes kv.0 (codes "field")
    then (do
      v ← value kv
      n ← field_place dst v
      dst' ← change_field dst n (λ fld. record fld { object_link = fo.name })
      ok (dst', record fo { field = v }))
    else if same_bytes kv.0 (codes "key")
    then (do v ← value kv; ok (dst, record fo { key = v }))
    else if same_bytes kv.0 (codes "object")
    then (do v ← value kv; ok (dst, record fo { object_name = v }))
    else unknown_tag kv

unfoldable pub link_tags :
    RecordPackage × FieldObject → List Param → Result ParseError (RecordPackage × FieldObject)
link_tags d [] = ok d
link_tags d (kv ∷ kvs) = do d' ← link_tag d kv; link_tags d' kvs

unfoldable pub parse_field_object : RecordPackage → Field → Result ParseError RecordPackage
parse_field_object dst field = do
  name ← only_name field.names
  unique ← link_unique field.field_type
  kvs ← split_tag field.tag true []
  d ←
      link_tags
        (dst, record { name = name; key = []; object_name = []; field = []; unique = unique }) kvs
  declared (add_field_object d.0 d.1)

unfoldable pub parse_fields_object : RecordPackage → List Field → Result ParseError RecordPackage
parse_fields_object dst [] = ok dst
parse_fields_object dst (field ∷ fields) = do
  dst' ← parse_field_object dst field
  parse_fields_object dst' fields

-- The triggers that exist, with the parameters of each.
abbrev pub available_triggers : List (Bytes × List Bytes)
available_triggers =
    (codes "RepairTuple", codes "Defaults" ∷ []) ∷ (codes "DublicateUniqTuple", []) ∷ []

-- A parameter that is set twice stands twice in the list.
unfoldable pub trigger_params :
    List Bytes → List Bytes → List Bytes → Result ParseError (List Bytes)
trigger_params known params [] = ok params
trigger_params known params (p ∷ ps) =
    if among p known then trigger_params known (p ∷ params) ps else err tag_unknown

unfoldable pub trigger_tag :
    List Bytes → TriggerDeclaration → Param → Result ParseError TriggerDeclaration
trigger_tag known t kv =
    if same_bytes kv.0 (codes "pkg")
    then (do v ← value kv; ok (record t { pkg = v }))
    else if same_bytes kv.0 (codes "func")
    then (do v ← value kv; ok (record t { func = v }))
    else if same_bytes kv.0 (codes "param")
    then (do
      v ← value kv
      ps ← trigger_params known t.params (split_on b',' v)
      ok (record t { params = ps }))
    else unknown_tag kv

unfoldable pub trigger_tags :
    List Bytes → TriggerDeclaration → List Param → Result ParseError TriggerDeclaration
trigger_tags known t [] = ok t
trigger_tags known t (kv ∷ kvs) = do t' ← trigger_tag known t kv; trigger_tags known t' kvs

unfoldable pub parse_trigger_tag :
    TriggerDeclaration → Bytes → Field → Result ParseError TriggerDeclaration
parse_trigger_tag t name field = elim (entry name available_triggers) [
  | none ↦ err unknown
  | some known ↦ (do kvs ← split_tag field.tag true []; trigger_tags known t kvs)
]

unfoldable pub parse_one_trigger : RecordPackage → Field → Result ParseError RecordPackage
parse_one_trigger dst field = do
  name ← only_name field.names
  check_bool_type field.field_type
  t ←
      parse_trigger_tag
        (record {
          name = name;
          pkg = [];
          func = name;
          import_name = codes "trigger" ++ name;
          params = [];
        })
        name field
  fail_if (is_empty t.pkg) trigger_package_not_defined
  found ← declared (find_or_add_import dst.import_package t.pkg t.import_name)
  declared (
      add_trigger (record dst { import_package = found.0 })
        (record t { import_name = found.1.import_name }))

unfoldable pub parse_trigger : RecordPackage → List Field → Result ParseError RecordPackage
parse_trigger dst [] = ok dst
parse_trigger dst (field ∷ fields) = do
  dst' ← parse_one_trigger dst field
  parse_trigger dst' fields

-- `path` is the text of the literal with its quotes, `name` the name that the import gives.
unfoldable pub parse_import : ImportPackage → Bytes → Option Bytes → Result ParseError ImportPackage
parse_import dst path none = do r ← declared (add_import dst (trim b'"' path) ([] ∷ [])); ok (r.0)
parse_import dst path (some n) = do
  r ← declared (add_import dst (trim b'"' path) (n ∷ []))
  ok (r.0)
