-- ===== src/Parser/Tags.antt =====
-- internal/pkg/parser/utils.go: names of structures and tags of fields. A tag `key:value` is a
-- parameter; `plain` are the keys that take no value (ParamNotNeedValue), and no caller gives another
-- default. cases.Lower is a parameter.
use activerecord.Prelude.{
  List, [], ◌∷◌, length, take, Option, none, some, Bool, false, leb, ◌&&◌, ◌-◌, if◌then◌else◌,
}
use activerecord.Go.{Result, ok, err, panic, Bytes, ◌>>=◌, ◌>>◌, fail_if}
use activerecord.Go.Strings.{codes, same_bytes, among, is_empty, split_on, cut, strip_prefix, trim}
use activerecord.Parser.{
  Expr, ident, slice_type, array_type, interface_type, star, map_type, selector, other_expr,
  ParseError, node_name_unknown, node_name_invalid, tag_split_absent, tag_invalid_format,
  tag_split_empty, tag_with_value, type_not_bool,
}

abbrev pub node_names : List Bytes
node_names =
    codes "FieldsObject"
    ∷ codes "Fields"
    ∷ codes "ProcFields"
    ∷ codes "Indexes"
    ∷ codes "IndexParts"
    ∷ codes "Serializers"
    ∷ codes "Triggers"
    ∷ codes "Flags"
    ∷ codes "Mutators"
    ∷ []

-- The first of the names that the node begins with, and what follows it.
find_node : List Bytes → Bytes → Bytes × Bytes
find_node [] node = ([], [])
find_node (n ∷ ns) node = elim (strip_prefix n node) [
  | some rest ↦ (n, rest)
  | none ↦ find_node ns node
]

-- `^[A-Z]`
starts_upper : Bytes → Bool
starts_upper [] = false
starts_upper (c ∷ cs) = leb b'A' c && leb c b'Z'

named_node : (Bytes → Bytes) → Bytes × Bytes → Result ParseError (Bytes × Bytes × Bytes)
named_node to_lower (name, public_name) =
    if is_empty public_name
    then err node_name_unknown
    else if starts_upper public_name
    then ok (name, public_name, to_lower public_name)
    else err node_name_invalid

-- The name, the public name and the package name.
unfoldable pub get_node_name : (Bytes → Bytes) → Bytes → Result ParseError (Bytes × Bytes × Bytes)
unfolding find_node starts_upper named_node
get_node_name to_lower node = named_node to_lower (find_node node_names node)

abbrev pub Param : Type 0
Param = Bytes × Option Bytes

-- `kv[1]` panics where there is none.
abbrev pub value : Param → Result ParseError Bytes
value (key, some v) = ok v
value (key, none) = panic

refused : List Bytes → Param → Bool
refused plain (key, none) = false
refused plain (key, some v) = among key plain

params_of : List Bytes → List Bytes → Result ParseError (List Param)
params_of plain [] = ok []
params_of plain (part ∷ parts) = if is_empty part then params_of plain parts else do
  fail_if (refused plain (cut b':' part)) tag_with_value
  more ← params_of plain parts
  ok (cut b':' part ∷ more)

unfoldable pub split_param : Bytes → List Bytes → Result ParseError (List Param)
unfolding refused params_of
split_param str plain = params_of plain (split_on b';' (trim b'"' str))

abbrev pub tag_start : Bytes
tag_start = codes "`ar:\""

-- `field.Tag.Value[4:len(field.Tag.Value)-1]` of a text that begins with "`ar:\"", `behind` being what
-- follows that. A literal that the Go parser accepts ends with a backquote, so it is longer.
tag_text : Bytes → Bytes
tag_text behind = b'"' ∷ take (length behind - 1) behind

checked_tag : Bool → List Bytes → Bytes → Result ParseError (List Param)
checked_tag check_empty plain behind = do
  fail_if (check_empty && same_bytes behind (codes "\"`")) tag_split_empty
  split_param (tag_text behind) plain

prefixed_tag : Bool → List Bytes → Option Bytes → Result ParseError (List Param)
prefixed_tag check_empty plain none = err tag_invalid_format
prefixed_tag check_empty plain (some behind) = checked_tag check_empty plain behind

tag_params : Bool → List Bytes → Option Bytes → Result ParseError (List Param)
tag_params check_empty plain none = err tag_split_absent
tag_params check_empty plain (some text) =
    prefixed_tag check_empty plain (strip_prefix tag_start text)

-- CheckFlagEmpty is `1 << iota` on the second line of its group, 2; a flag is set or not.
unfoldable pub split_tag : Option Bytes → Bool → List Bytes → Result ParseError (List Param)
unfolding tag_text checked_tag prefixed_tag tag_params
split_tag tag check_empty plain = tag_params check_empty plain tag

unfoldable pub check_bool_type : Expr → Result ParseError (Unit {0})
check_bool_type (ident n) = if same_bytes n (codes "bool") then ok tt else err type_not_bool
check_bool_type (slice_type t) = err type_not_bool
check_bool_type (array_type l t) = err type_not_bool
check_bool_type interface_type = err type_not_bool
check_bool_type (star t) = err type_not_bool
check_bool_type (map_type k v) = err type_not_bool
check_bool_type (selector x s) = err type_not_bool
check_bool_type other_expr = err type_not_bool
