-- ===== src/Parser/Fields.antt =====
-- internal/pkg/parser/field.go: the fields of an entity and the parameters of a procedure.
pub mod Missing
use activerecord.Prelude.{
  ℕ, List, [], ◌∷◌, ◌++◌, length, Option, none, some, Bool, true, false, ◌==◌, ◌-◌, if◌then◌else◌,
  ℤ, pos,
}
use activerecord.Go.{Result, ok, err, panic, Bytes, ◌>>=◌, ◌>>◌}
use activerecord.Go.Strings.{codes, same_bytes, is_empty, split_on}
use activerecord.Go.Numbers.{parse_int}
use activerecord.Package.{DeclError}
use activerecord.Package.Records.{
  FieldDeclaration, IndexDeclaration, IndexField, ProcFieldDeclaration, ProcParameterType, untyped,
  input, output, input_output, RecordPackage, Added, add_field, add_index, add_proc_field,
}
use activerecord.Parser.{
  Expr, ident, slice_type, array_type, interface_type, star, map_type, selector, other_expr, Field,
  ParseError, tag_unknown, tag_value_invalid, array_of_not_byte, array_not_slice, array_slice,
  field_binary, unknown, declaration, declared, only_name, ident_name,
}
use activerecord.Parser.Tags.{Param, value, split_tag}

abbrev pub FieldAndIndex : Type 0
FieldAndIndex = FieldDeclaration × IndexDeclaration

-- A size that is not given stays.
unfoldable pub size_value : ℤ → Bytes → Result ParseError ℤ
size_value old [] = ok old
size_value old (c ∷ cs) = elim (parse_int (c ∷ cs)) [ some n ↦ ok n | none ↦ err tag_value_invalid ]

-- The default branch of the switch: its error message reads `kv[1]`.
abbrev pub unknown_tag : {A : Type 0} → Param → Result ParseError A
unknown_tag kv = do v ← value kv; err tag_unknown

-- One turn of the loop of ParseFieldsTag.
unfoldable pub field_tag : FieldAndIndex → Param → Result ParseError FieldAndIndex
field_tag (f, ind) kv =
    if same_bytes kv.0 (codes "selector")
    then (do v ← value kv; ok (f, record ind { name = f.name; selector = v }))
    else if same_bytes kv.0 (codes "primary_key")
    then ok (f, record ind { name = f.name; primary = true })
    else if same_bytes kv.0 (codes "unique")
    then ok (f, record ind { name = f.name; unique = true })
    else if same_bytes kv.0 (codes "mutators")
    then (do v ← value kv; ok (record f { mutators = split_on b',' v }, ind))
    else if same_bytes kv.0 (codes "size")
    then (do v ← value kv; n ← size_value f.size v; ok (record f { size = n }, ind))
    else if same_bytes kv.0 (codes "serializer")
    then (do v ← value kv; ok (record f { serializer = split_on b',' v }, ind))
    else unknown_tag kv

unfoldable pub field_tags : FieldAndIndex → List Param → Result ParseError FieldAndIndex
field_tags fi [] = ok fi
field_tags fi (kv ∷ kvs) = do fi' ← field_tag fi kv; field_tags fi' kvs

abbrev pub plain_tags : List Bytes
plain_tags = codes "primary_key" ∷ codes "unique" ∷ []

unfoldable pub parse_fields_tag : Field → FieldAndIndex → Result ParseError FieldAndIndex
parse_fields_tag field fi = do kvs ← split_tag field.tag false plain_tags; field_tags fi kvs

-- An array is refused, whatever it is; so is a slice.
unfoldable pub field_format : Expr → Result ParseError Bytes
field_format (ident n) = ok n
field_format (slice_type t) = do
  n ← ident_name t
  if same_bytes n (codes "byte") then err array_not_slice else err array_of_not_byte
field_format (array_type l t) = do
  n ← ident_name t
  if same_bytes n (codes "byte") then err field_binary else err array_of_not_byte
field_format interface_type = err unknown
field_format (star t) = err unknown
field_format (map_type k v) = err unknown
field_format (selector x s) = err unknown
field_format other_expr = err unknown

abbrev pub new_field : Bytes → Bytes → FieldDeclaration
new_field name format = record {
  name = name;
  format = format;
  primary_key = false;
  mutators = [];
  size = pos 0;
  serializer = [];
  object_link = [];
}

abbrev pub new_index_declaration : Bytes → Bytes → Bool → IndexDeclaration
new_index_declaration name selector_name partial = record {
  name = name;
  num = 0;
  selector = selector_name;
  ind_fields = [];
  fields_map = [];
  primary = false;
  unique = false;
  partial = partial;
}

-- AddField and AddProcField say what they did.
unfoldable pub added : Added → Result ParseError RecordPackage
added (rc, none) = ok rc
added (rc, some e) = err (declaration e)

-- The index of one field, of the field that was added last.
unfoldable pub field_index : RecordPackage → FieldAndIndex → Result ParseError RecordPackage
field_index rc (f, ind) =
    if is_empty ind.name
    then ok rc
    else declared (
        add_index rc (record ind {
          ind_fields = ind.ind_fields ++ ((length rc.fields - 1) ∷ []);
          fields_map =
              (f.name, record { ind_field = length rc.fields - 1; order_desc = false })
              ∷ ind.fields_map;
        }))

unfoldable pub parse_field : RecordPackage → Field → Result ParseError RecordPackage
parse_field dst field = do
  name ← only_name field.names
  format ← field_format field.field_type
  fi ← parse_fields_tag field (new_field name format, new_index_declaration [] [] false)
  dst' ← added (add_field dst fi.0)
  field_index dst' fi

unfoldable pub parse_fields : RecordPackage → List Field → Result ParseError RecordPackage
parse_fields dst [] = ok dst
parse_fields dst (field ∷ fields) = do dst' ← parse_field dst field; parse_fields dst' fields

-- `newfield.Type | ds.IN` and `newfield.Type | ds.OUT`
unfoldable pub or_input : ProcParameterType → ProcParameterType
or_input untyped = input
or_input input = input
or_input output = input_output
or_input input_output = input_output

unfoldable pub or_output : ProcParameterType → ProcParameterType
or_output untyped = output
or_output input = input_output
or_output output = output
or_output input_output = input_output

unfoldable pub order_value : ℕ → Param → Result ParseError ℤ
order_value index (key, none) = ok (pos index)
order_value index (key, some v) = elim (parse_int v) [
  | some n ↦ ok n
  | none ↦ err tag_value_invalid
]

unfoldable pub proc_field_tag :
    ℕ → ProcFieldDeclaration → Param → Result ParseError ProcFieldDeclaration
proc_field_tag index f kv =
    if same_bytes kv.0 (codes "input")
    then ok (record f { parameter_type = or_input f.parameter_type })
    else if same_bytes kv.0 (codes "output")
    then (do
      n ← order_value index kv
      ok (record f { parameter_type = or_output f.parameter_type; order_index = n }))
    else if same_bytes kv.0 (codes "size")
    then (do v ← value kv; n ← size_value f.size v; ok (record f { size = n }))
    else if same_bytes kv.0 (codes "serializer")
    then (do v ← value kv; ok (record f { serializer = split_on b',' v }))
    else unknown_tag kv

unfoldable pub proc_field_tags :
    ℕ → ProcFieldDeclaration → List Param → Result ParseError ProcFieldDeclaration
proc_field_tags index f [] = ok f
proc_field_tags index f (kv ∷ kvs) = do f' ← proc_field_tag index f kv; proc_field_tags index f' kvs

unfoldable pub parse_proc_fields_tag :
    ℕ → Field → ProcFieldDeclaration → Result ParseError ProcFieldDeclaration
parse_proc_fields_tag index field f = do
  kvs ← split_tag field.tag false plain_tags
  proc_field_tags index f kvs

unfoldable pub is_in : ProcParameterType → Bool
is_in untyped = false
is_in input = true
is_in output = false
is_in input_output = false

unfoldable pub slice_format : ProcParameterType → Bytes → Result ParseError Bytes
slice_format type n = if is_in type then ok (codes "[]" ++ n) else err array_not_slice

unfoldable pub proc_elem : Bytes → Result ParseError (Unit {0})
proc_elem n =
    if same_bytes n (codes "byte")
    then ok tt
    else if same_bytes n (codes "string")
    then ok tt
    else err array_slice

unfoldable pub proc_format : ProcParameterType → Expr → Result ParseError Bytes
proc_format type (ident n) = ok n
proc_format type (slice_type t) = do n ← ident_name t; proc_elem n; slice_format type n
proc_format type (array_type l t) = do n ← ident_name t; proc_elem n; err field_binary
proc_format type interface_type = err unknown
proc_format type (star t) = err unknown
proc_format type (map_type k v) = err unknown
proc_format type (selector x s) = err unknown
proc_format type other_expr = err unknown

abbrev pub new_proc_field : Bytes → ProcFieldDeclaration
new_proc_field name = record {
  name = name;
  format = [];
  parameter_type = untyped;
  size = pos 0;
  serializer = [];
  order_index = pos 0;
}

unfoldable pub parse_proc_field : RecordPackage → Field → Result ParseError RecordPackage
parse_proc_field dst field = do
  name ← only_name field.names
  f ← parse_proc_fields_tag (length dst.proc_out_fields) field (new_proc_field name)
  format ← proc_format f.parameter_type field.field_type
  added (add_proc_field dst (record f { format = format }))

unfoldable pub parse_proc_fields : RecordPackage → List Field → Result ParseError RecordPackage
parse_proc_fields dst [] = ok dst
parse_proc_fields dst (field ∷ fields) = do
  dst' ← parse_proc_field dst field
  parse_proc_fields dst' fields
