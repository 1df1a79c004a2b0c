-- ===== src/Parser.antt =====
-- internal/pkg/parser: declarations of a model, as a Go syntax tree (go/ast), are read into a package
-- of internal/pkg/ds. This file has the part of the tree that is looked at, and the causes of errors.
-- A parser that fails gives its error alone: the package that it has changed is thrown away then.
pub mod Tags
pub mod Fields
pub mod Indexes
pub mod Links
pub mod Serializers
pub mod Doc
use activerecord.Prelude.{ℕ, List, [], ◌∷◌, Option, none, some}
use activerecord.Go.{Result, ok, err, panic, Bytes}
use activerecord.Package.{DeclError}

-- An array type has a length, or is a slice.
pub data Expr : Type 0 where
  ident : Bytes → Expr
  slice_type : Expr → Expr
  array_type : Expr → Expr → Expr
  interface_type : Expr
  star : Expr → Expr
  map_type : Expr → Expr → Expr
  selector : Expr → Bytes → Expr
  other_expr : Expr

-- `tag` is the text of the literal with its quotes. No names stand for nil, too.
pub record Field : Type 0 where
  pub names : List Bytes
  pub field_type : Expr
  pub tag : Option Bytes

-- The sentinels of internal/pkg/arerror/parse.go that a returned error wraps, and those of package.go.
pub data ParseError : Type 0 where
  name_declaration unknown : ParseError
  node_name_unknown node_name_invalid : ParseError
  tag_split_absent tag_invalid_format tag_split_empty : ParseError
  tag_with_value tag_unknown tag_value_invalid : ParseError
  type_not_bool type_not_slice : ParseError
  array_of_not_byte array_not_slice array_slice field_binary : ParseError
  index_not_exist field_not_exist index_duplicate : ParseError
  fieldnum_too_big fieldnum_equal fieldnum_required : ParseError
  trigger_package_not_defined : ParseError
  doc_empty doc_timeout doc_namespace : ParseError
  declaration : DeclError → ParseError

-- `if err := dst.Add…(…); err != nil { return err }`
abbrev pub declared : {A : Type 0} → Result DeclError A → Result ParseError A
declared (ok a) = ok a
declared (err e) = err (declaration e)
declared panic = panic

-- `field.Names == nil || len(field.Names) != 1`
abbrev pub only_name : List Bytes → Result ParseError Bytes
only_name [] = err name_declaration
only_name (n ∷ []) = ok n
only_name (n ∷ m ∷ ns) = err name_declaration

-- `t.Elt.(*ast.Ident).Name` panics on another expression.
abbrev pub ident_name : Expr → Result ParseError Bytes
ident_name (ident n) = ok n
ident_name (slice_type t) = panic
ident_name (array_type l t) = panic
ident_name interface_type = panic
ident_name (star t) = panic
ident_name (map_type k v) = panic
ident_name (selector x s) = panic
ident_name other_expr = panic
