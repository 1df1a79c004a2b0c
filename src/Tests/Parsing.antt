-- ===== src/Tests/Parsing.antt =====
-- The parser on concrete declarations.
use activerecord.Prelude.{ℕ, List, [], ◌∷◌, none, some, true, false, ◌≡◌, refl, pos}
use activerecord.Go.{ok, panic, Bytes}
use activerecord.Go.Strings.{codes, split_on, cut, trim, strip_prefix}
use activerecord.Package.Records.{IndexDeclaration, FieldDeclaration}
use activerecord.Parser.Tags.{split_tag, split_param}
use activerecord.Parser.Fields.{
  FieldAndIndex, field_tags, new_field, new_index_declaration, field_tag,
}
use activerecord.Parser.Fields.Missing.{field_tags_missing}
use activerecord.Parser.Indexes.{
  index_tag, index_fields, Part, checked_fieldnum, order_desc_fields, order_desc_field, index_field,
  take_fields, add_part, map_value,
}
use activerecord.Parser.Indexes.Orders.{index_fields_lem, places}

written :
    split_tag (some (codes "`ar:\"size:5;unique\"`")) true (codes "unique" ∷ [])
    ≡ ok ((codes "size", some (codes "5")) ∷ (codes "unique", none) ∷ [])
unfolding split_tag split_param trim split_on cut strip_prefix
written = refl

abbrev started : FieldAndIndex
started = (new_field (codes "ID") (codes "uint32"), new_index_declaration [] [] false)

abbrev started_key : FieldAndIndex
started_key = (
  new_field (codes "ID") (codes "uint32"),
  record (new_index_declaration (codes "ID") [] false) { primary = true },
)

key_first : field_tags started ((codes "primary_key", none) ∷ []) ≡ ok started_key
unfolding field_tags field_tag
key_first = refl

field_tags_missing_example :
    field_tags started ((codes "primary_key", none) ∷ (codes "sise", none) ∷ []) ≡ panic
field_tags_missing_example =
    field_tags_missing ((codes "primary_key", none) ∷ []) (codes "sise") [] started started_key
      key_first refl

abbrev places_of : List (Bytes × ℕ)
places_of = (codes "B", 1) ∷ (codes "A", 0) ∷ []

abbrev on_a : IndexDeclaration
on_a = record (new_index_declaration (codes "I") [] false) {
  ind_fields = 0 ∷ [];
  fields_map = (codes "A", record { ind_field = 0; order_desc = false }) ∷ [];
}

accepted : index_tag places_of on_a (codes "orderdesc", some (codes "A")) ≡ ok on_a
unfolding index_tag order_desc_fields split_on order_desc_field
accepted = refl

abbrev on_b_a : IndexDeclaration
on_b_a = record (new_index_declaration (codes "I") [] false) {
  ind_fields = 1 ∷ 0 ∷ [];
  fields_map =
      (codes "A", record { ind_field = 0; order_desc = false })
      ∷ (codes "B", record { ind_field = 1; order_desc = false })
      ∷ [];
}

both_named :
    index_fields places_of (new_index_declaration (codes "I") [] false) (codes "B" ∷ codes "A" ∷ [])
    ≡ ok on_b_a
unfolding index_fields index_field
both_named = refl

index_fields_lem_example :
    (ns : List ℕ) × (places places_of (codes "B" ∷ codes "A" ∷ []) ≡ some ns)
    × (on_b_a.ind_fields ≡ ns)
index_fields_lem_example =
    index_fields_lem places_of (codes "B" ∷ codes "A" ∷ [])
      (new_index_declaration (codes "I") [] false) on_b_a both_named

abbrev fields_a_b : List FieldDeclaration
fields_a_b = new_field (codes "A") (codes "uint32") ∷ new_field (codes "B") (codes "uint32") ∷ []

abbrev part : Part
part = record {
  ind = new_index_declaration (codes "P") [] true;
  ex_fields = on_b_a.ind_fields;
  ex_map = on_b_a.fields_map;
  fieldnum = pos 1;
}

abbrev part_b : IndexDeclaration
part_b = record (new_index_declaration (codes "P") [] true) {
  ind_fields = 1 ∷ [];
  fields_map = (codes "B", record { ind_field = 1; order_desc = false }) ∷ [];
}

first_taken : checked_fieldnum fields_a_b part (pos 1) ≡ ok part_b
unfolding checked_fieldnum take_fields add_part map_value
first_taken = refl
