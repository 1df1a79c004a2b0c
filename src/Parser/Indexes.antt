-- ===== src/Parser/Indexes.antt =====
-- internal/pkg/parser/index.go: the indexes of an entity, and the parts of them.
pub mod Orders
use activerecord.Prelude.{
  ℕ, zero, suc, List, [], ◌∷◌, ◌++◌, length, get_elem?, Option, none, some, Bool, true, false, ◌==◌,
  ltb, leb, if◌then◌else◌, ℤ, pos, negsuc, int_eq,
}
use activerecord.Go.{Result, ok, err, panic, Bytes, ◌>>=◌, ◌>>◌, fail_if}
use activerecord.Go.Strings.{codes, same_bytes, is_empty, split_on, entry, has_entry}
use activerecord.Go.Numbers.{parse_int}
use activerecord.Package.Records.{
  FieldDeclaration, IndexDeclaration, IndexField, RecordPackage, add_index,
}
use activerecord.Parser.{
  Expr, Field, ParseError, tag_unknown, tag_value_invalid, index_not_exist, field_not_exist,
  index_duplicate, fieldnum_too_big, fieldnum_equal, fieldnum_required, declared, only_name,
}
use activerecord.Parser.Tags.{Param, value, split_tag, check_bool_type}
use activerecord.Parser.Fields.{unknown_tag, plain_tags, new_index_declaration}

-- One name of the tag `fields`.
unfoldable pub index_field :
    List (Bytes × ℕ) → IndexDeclaration → Bytes → Result ParseError IndexDeclaration
index_field fields_map ind name = elim (entry name fields_map) [
  | none ↦ err field_not_exist
  | some n ↦
      if has_entry name ind.fields_map
      then err index_duplicate
      else ok (record ind {
        fields_map = (name, record { ind_field = n; order_desc = false }) ∷ ind.fields_map;
        ind_fields = ind.ind_fields ++ (n ∷ []);
      })
]

unfoldable pub index_fields :
    List (Bytes × ℕ) → IndexDeclaration → List Bytes → Result ParseError IndexDeclaration
index_fields fields_map ind [] = ok ind
index_fields fields_map ind (name ∷ names) = do
  ind' ← index_field fields_map ind name
  index_fields fields_map ind' names

-- One name of the tag `orderdesc`: `indField` is a copy of the entry, so the order that is set in it
-- is lost.
unfoldable pub order_desc_field :
    List (Bytes × ℕ) → IndexDeclaration → Bytes → Result ParseError IndexDeclaration
order_desc_field fields_map ind name =
    if has_entry name fields_map
    then (if has_entry name ind.fields_map then ok ind else err field_not_exist)
    else err field_not_exist

unfoldable pub order_desc_fields :
    List (Bytes × ℕ) → IndexDeclaration → List Bytes → Result ParseError IndexDeclaration
order_desc_fields fields_map ind [] = ok ind
order_desc_fields fields_map ind (name ∷ names) = do
  ind' ← order_desc_field fields_map ind name
  order_desc_fields fields_map ind' names

unfoldable pub index_tag :
    List (Bytes × ℕ) → IndexDeclaration → Param → Result ParseError IndexDeclaration
index_tag fields_map ind kv =
    if same_bytes kv.0 (codes "primary_key")
    then ok (record ind { primary = true })
    else if same_bytes kv.0 (codes "unique")
    then ok (record ind { unique = true })
    else if same_bytes kv.0 (codes "selector")
    then (do v ← value kv; ok (record ind { selector = v }))
    else if same_bytes kv.0 (codes "fields")
    then (do v ← value kv; index_fields fields_map ind (split_on b',' v))
    else if same_bytes kv.0 (codes "orderdesc")
    then (do v ← value kv; order_desc_fields fields_map ind (split_on b',' v))
    else unknown_tag kv

unfoldable pub index_tags :
    List (Bytes × ℕ) → IndexDeclaration → List Param → Result ParseError IndexDeclaration
index_tags fields_map ind [] = ok ind
index_tags fields_map ind (kv ∷ kvs) = do
  ind' ← index_tag fields_map ind kv
  index_tags fields_map ind' kvs

unfoldable pub parse_index_tag :
    Field → IndexDeclaration → List (Bytes × ℕ) → Result ParseError IndexDeclaration
parse_index_tag field ind fields_map = do
  kvs ← split_tag field.tag true plain_tags
  index_tags fields_map ind kvs

unfoldable pub parse_index : RecordPackage → Field → Result ParseError RecordPackage
parse_index dst field = do
  name ← only_name field.names
  check_bool_type field.field_type
  ind ←
      parse_index_tag field (new_index_declaration name (codes "SelectBy" ++ name) false)
        dst.fields_map
  declared (add_index dst ind)

unfoldable pub parse_indexes : RecordPackage → List Field → Result ParseError RecordPackage
parse_indexes dst [] = ok dst
parse_indexes dst (field ∷ fields) = do dst' ← parse_index dst field; parse_indexes dst' fields

-- The variables of ParseIndexPartTag: `exInd` by its fields, and `fieldnum`.
pub record Part : Type 0 where
  pub ind : IndexDeclaration
  pub ex_fields : List ℕ
  pub ex_map : List (Bytes × IndexField)
  pub fieldnum : ℤ

unfoldable pub of_index : Part → Option IndexDeclaration → Result ParseError Part
of_index p none = panic
of_index p (some ex) = ok (record p {
  ex_fields = ex.ind_fields;
  ex_map = ex.fields_map;
  ind = record (p.ind) { num = ex.num };
})

unfoldable pub part_tag :
    List (Bytes × ℕ) → List IndexDeclaration → Part → Param → Result ParseError Part
part_tag index_map indexes p kv =
    if same_bytes kv.0 (codes "selector")
    then (do v ← value kv; ok (record p { ind = record (p.ind) { selector = v } }))
    else if same_bytes kv.0 (codes "index")
    then (do
      v ← value kv
      elim (entry v index_map) [
        | none ↦ err index_not_exist
        | some i ↦ of_index p (get_elem? indexes i)
      ])
    else if same_bytes kv.0 (codes "fieldnum")
    then (do
      v ← value kv
      elim (parse_int v) [ none ↦ err tag_value_invalid | some n ↦ ok (record p { fieldnum = n }) ])
    else unknown_tag kv

unfoldable pub part_tags :
    List (Bytes × ℕ) → List IndexDeclaration → Part → List Param → Result ParseError Part
part_tags index_map indexes p [] = ok p
part_tags index_map indexes p (kv ∷ kvs) = do
  p' ← part_tag index_map indexes p kv
  part_tags index_map indexes p' kvs

-- The zero value of an IndexField stands for a missing entry.
unfoldable pub map_value : Bytes → List (Bytes × IndexField) → IndexField
map_value name m = elim (entry name m) [
  | none ↦ record { ind_field = 0; order_desc = false }
  | some f ↦ f
]

-- `fields[n]` panics out of range.
unfoldable pub add_part :
    List FieldDeclaration
    → List (Bytes × IndexField)
    → IndexDeclaration
    → ℕ
    → Result ParseError IndexDeclaration
add_part fields ex_map ind n = elim (get_elem? fields n) [
  | none ↦ panic
  | some f ↦ ok (record ind {
    ind_fields = ind.ind_fields ++ (n ∷ []);
    fields_map = (f.name, map_value f.name ex_map) ∷ ind.fields_map;
  })
]

-- The last loop, over the first `f` of the fields; there are that many by then.
unfoldable pub take_fields :
    List FieldDeclaration
    → List (Bytes × IndexField)
    → ℕ
    → List ℕ
    → IndexDeclaration
    → Result ParseError IndexDeclaration
take_fields fields ex_map zero ns ind = ok ind
take_fields fields ex_map (suc f) [] ind = panic
take_fields fields ex_map (suc f) (n ∷ ns) ind = do
  ind' ← add_part fields ex_map ind n
  take_fields fields ex_map f ns ind'

-- A negative number is below each length, and gives no round of the loop.
unfoldable pub checked_fieldnum :
    List FieldDeclaration → Part → ℤ → Result ParseError IndexDeclaration
checked_fieldnum fields p (negsuc n) = ok p.ind
checked_fieldnum fields p (pos n) = do
  fail_if (ltb (length p.ex_fields) n) fieldnum_too_big
  fail_if (length p.ex_fields == n) fieldnum_equal
  take_fields fields p.ex_map n p.ex_fields p.ind

unfoldable pub parse_index_part_tag :
    Field
    → IndexDeclaration
    → List (Bytes × ℕ)
    → List FieldDeclaration
    → List IndexDeclaration
    → Result ParseError IndexDeclaration
parse_index_part_tag field ind index_map fields indexes = do
  kvs ← split_tag field.tag true []
  p ←
      part_tags index_map indexes
        (record { ind = ind; ex_fields = []; ex_map = []; fieldnum = pos 1 }) kvs
  checked_fieldnum fields p p.fieldnum

unfoldable pub parse_index_part : RecordPackage → Field → Result ParseError RecordPackage
parse_index_part dst field = do
  name ← only_name field.names
  check_bool_type field.field_type
  ind ←
      parse_index_part_tag field (new_index_declaration name (codes "SelectBy" ++ name) true)
        dst.index_map dst.fields dst.indexes
  fail_if (is_empty ind.ind_fields) fieldnum_required
  declared (add_index dst ind)

unfoldable pub parse_index_parts : RecordPackage → List Field → Result ParseError RecordPackage
parse_index_parts dst [] = ok dst
parse_index_parts dst (field ∷ fields) = do
  dst' ← parse_index_part dst field
  parse_index_parts dst' fields
