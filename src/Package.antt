-- ===== src/Package.antt =====
-- internal/pkg/ds/package.go: what the parser of declarations adds to a package. The maps keep the
-- place of a declaration in its list. Of a field and an index only what this code reads is kept, and
-- the rest is one opaque value. A Go call that returns an error has changed nothing, except where a
-- result says so.
pub mod Imports
pub mod Records
pub mod Procedures
use activerecord.Prelude.{
  ℕ, zero, suc, ◌+◌, ◌%◌, ◌^◌, List, [], ◌∷◌, ◌++◌, length, get_elem?, set, Option, none, some,
  Bool, true, false, not, ◌||◌, ◌&&◌, ◌==◌, ltb, if◌then◌else◌, foldl,
}
use activerecord.Go.Strings.{same_bytes, entry}
use activerecord.Go.{Result, ok, err, panic, Bytes, ◌>>=◌}

pub data DeclError : Type 0 where
  invalid_params import_name_error duplicate not_found redefined : DeclError
  duplicate_order_index : DeclError

pub record ImportDeclaration : Type 0 where
  pub path : Bytes
  pub import_name : Bytes

pub record ImportPackage : Type 0 where
  pub imports : List ImportDeclaration
  pub import_map : List (Bytes × ℕ)
  pub import_pkg_map : List (Bytes × ℕ)

-- The match of `([^/"]+)"?$`: the longest end of the path without `/` and `"`, a `"` at the very end
-- aside, unless that is empty.
stops : ℕ → Bool
stops c = (c == b'/') || (c == 0x22)

drop_quote : Bytes → Bytes
drop_quote [] = []
drop_quote (c ∷ []) = if c == 0x22 then [] else c ∷ []
drop_quote (c ∷ d ∷ cs) = c ∷ drop_quote (d ∷ cs)

-- The end of `cs`, where `name` is what was read since the last stop.
last_name : Bytes → Bytes → Bytes
last_name name [] = name
last_name name (c ∷ cs) = if stops c then last_name [] cs else last_name (name ++ (c ∷ [])) cs

named : Bytes → Result DeclError Bytes
named [] = err import_name_error
named (c ∷ cs) = ok (c ∷ cs)

pub get_import_name : Bytes → Result DeclError Bytes
get_import_name path = named (last_name [] (drop_quote path))

-- `rc.Imports[imp]`
import_at : ImportPackage → ℕ → Result DeclError ImportDeclaration
import_at rc i = elim (get_elem? rc.imports i) [ none ↦ panic | some imp ↦ ok imp ]

new_import : ImportPackage → Bytes → Bytes → Bytes → ImportPackage × ImportDeclaration
new_import rc path result_name search_name = (
  record {
    imports = rc.imports ++ (record { path = path; import_name = result_name } ∷ []);
    import_map = (path, length rc.imports) ∷ rc.import_map;
    import_pkg_map = (search_name, length rc.imports) ∷ rc.import_pkg_map;
  },
  record { path = path; import_name = result_name },
)

same_path :
    ImportPackage → Bytes → ImportDeclaration → Result DeclError (ImportPackage × ImportDeclaration)
same_path rc path imp = if same_bytes imp.path path then ok (rc, imp) else err duplicate

-- The second lookup of AddImport and what follows it.
add_by_pkg :
    ImportPackage → Bytes → Bytes → Bytes → Result DeclError (ImportPackage × ImportDeclaration)
add_by_pkg rc path result_name search_name = elim (entry search_name rc.import_pkg_map) [
  | some i ↦ import_at rc i >>= same_path rc path
  | none ↦ ok (new_import rc path result_name search_name)
]

same_name :
    ImportPackage
    → Bytes
    → Bytes
    → Bytes
    → ImportDeclaration
    → Result DeclError (ImportPackage × ImportDeclaration)
same_name rc path result_name search_name imp =
    if same_bytes imp.import_name result_name
    then ok (rc, imp)
    else add_by_pkg rc path result_name search_name

-- The two lookups of AddImport.
add_named :
    ImportPackage → Bytes → Bytes × Bytes → Result DeclError (ImportPackage × ImportDeclaration)
add_named rc path (result_name, search_name) = elim (entry path rc.import_map) [
  | some i ↦ import_at rc i >>= same_name rc path result_name search_name
  | none ↦ add_by_pkg rc path result_name search_name
]

-- `resultImportName` and `searchImportName`.
import_names : Bytes → Bytes → Bytes × Bytes
import_names [] search = ([], search)
import_names (c ∷ cs) search = if same_bytes (c ∷ cs) search then ([], c ∷ cs) else (c ∷ cs, c ∷ cs)

pub add_import :
    ImportPackage → Bytes → List Bytes → Result DeclError (ImportPackage × ImportDeclaration)
add_import rc path [] = do search ← get_import_name path; add_named rc path ([], search)
add_import rc path (name ∷ []) = do
  search ← get_import_name path
  add_named rc path (import_names name search)
add_import rc path (name ∷ other ∷ names) = err invalid_params

pub find_import : ImportPackage → Bytes → Result DeclError ImportDeclaration
find_import rc path = elim (entry path rc.import_map) [
  | some i ↦ import_at rc i
  | none ↦ err not_found
]

pub find_import_by_pkg : ImportPackage → Bytes → Result DeclError ImportDeclaration
find_import_by_pkg rc pkg = elim (entry pkg rc.import_pkg_map) [
  | some i ↦ import_at rc i
  | none ↦ err not_found
]

-- The only error of FindImport is the one that this code tests for.
pub find_or_add_import :
    ImportPackage → Bytes → Bytes → Result DeclError (ImportPackage × ImportDeclaration)
find_or_add_import rc path name = elim (find_import rc path) [
  | ok imp ↦ ok (rc, imp)
  | err e ↦ add_import rc path (name ∷ [])
  | panic ↦ panic
]
