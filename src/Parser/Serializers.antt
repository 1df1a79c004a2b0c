-- ===== src/Parser/Serializers.antt =====
-- internal/pkg/parser/serializer.go: the types of serializers, and their declarations.
use activerecord.Prelude.{List, [], ◌∷◌, ◌++◌, false, if◌then◌else◌}
use activerecord.Go.{Result, ok, err, panic, Bytes, ◌>>=◌}
use activerecord.Go.Strings.{codes, same_bytes, is_empty}
use activerecord.Package.{ImportPackage, find_import_by_pkg, find_or_add_import}
use activerecord.Package.Records.{SerializerDeclaration, RecordPackage, add_serializer}
use activerecord.Parser.{
  Expr, ident, slice_type, array_type, interface_type, star, map_type, selector, other_expr, Field,
  ParseError, unknown, declared, only_name,
}
use activerecord.Parser.Tags.{Param, value, split_tag}
use activerecord.Parser.Fields.{unknown_tag}

-- `if err != nil { return "", nil }`
or_nothing : Result ParseError Bytes → (Bytes → Result ParseError Bytes) → Result ParseError Bytes
or_nothing (ok t) f = f t
or_nothing (err e) f = ok []
or_nothing panic f = panic

-- ParseTypeSerializer. An error of the key or the value of a map is dropped.
pub parse_type_serializer : ImportPackage → Expr → Result ParseError Bytes
parse_type_serializer rc (ident n) = ok n
parse_type_serializer rc (slice_type t) = do n ← parse_type_serializer rc t; ok (codes "[]" ++ n)
parse_type_serializer rc (array_type l t) = do
  m ← parse_type_serializer rc l
  n ← parse_type_serializer rc t
  ok (codes "[" ++ (m ++ (codes "]" ++ n)))
parse_type_serializer rc interface_type = ok (codes "interface{}")
parse_type_serializer rc (star t) = do n ← parse_type_serializer rc t; ok (codes "*" ++ n)
parse_type_serializer rc (map_type k v) = or_nothing (parse_type_serializer rc k) (λ m.
    or_nothing (parse_type_serializer rc v) (λ n. ok (codes "map[" ++ (m ++ (codes "]" ++ n)))))
parse_type_serializer rc (selector x s) = do
  p ← parse_type_serializer rc x
  imp ← declared (find_import_by_pkg rc p)
  ok ((if is_empty imp.import_name then p else imp.import_name) ++ (codes "." ++ s))
parse_type_serializer rc other_expr = err unknown

pub serializer_tag : SerializerDeclaration → Param → Result ParseError SerializerDeclaration
serializer_tag d kv =
    if same_bytes kv.0 (codes "pkg")
    then (do v ← value kv; ok (record d { pkg = v }))
    else if same_bytes kv.0 (codes "marshaler")
    then (do v ← value kv; ok (record d { marshaler = v }))
    else if same_bytes kv.0 (codes "unmarshaler")
    then (do v ← value kv; ok (record d { unmarshaler = v }))
    else unknown_tag kv

pub serializer_tags : SerializerDeclaration → List Param → Result ParseError SerializerDeclaration
serializer_tags d [] = ok d
serializer_tags d (kv ∷ kvs) = do d' ← serializer_tag d kv; serializer_tags d' kvs

pub parse_one_serializer : RecordPackage → Field → Result ParseError RecordPackage
parse_one_serializer dst field = do
  name ← only_name field.names
  kvs ← split_tag field.tag false []
  d ←
      serializer_tags
        (record {
          name = name;
          pkg = codes "github.com/mailru/activerecord/pkg/serializer";
          type_name = [];
          import_name = codes "serializer" ++ name;
          marshaler = name ++ codes "Marshal";
          unmarshaler = name ++ codes "Unmarshal";
        })
        kvs
  found ← declared (find_or_add_import dst.import_package d.pkg d.import_name)
  t ← parse_type_serializer found.0 field.field_type
  declared (
      add_serializer (record dst { import_package = found.0 })
        (record d { import_name = found.1.import_name; type_name = t }))

pub parse_serializer : RecordPackage → List Field → Result ParseError RecordPackage
parse_serializer dst [] = ok dst
parse_serializer dst (field ∷ fields) = do
  dst' ← parse_one_serializer dst field
  parse_serializer dst' fields
