-- ===== src/App.antt =====
-- internal/app/argen.go: the generator as a whole, over its directories. Reading a directory, parsing a
-- file, generating and writing are parameters, as are the paths of filepath.Join; of the writes the
-- model keeps the paths. The maps are lists of entries, in the order in which Go happens to take them;
-- in which order the files to remove are taken, and what os.Remove does, are parameters too.
-- The stores of fixtures are not modelled.
pub mod Cleaning
pub mod Leftover
pub mod Removal
pub mod Links
use activerecord.Prelude.{
  ℕ, ◌-◌, List, [], ◌∷◌, ◌++◌, length, map, take, drop, Option, none, some, Bool, true, false, not,
  ◌&&◌, ◌||◌, leb, ltb, if◌then◌else◌,
}
use activerecord.Go.{Result, ok, err, panic, Bytes, ◌>>=◌, ◌>>◌, fail_if}
use activerecord.Go.Strings.{codes, same_bytes, entry, has_entry, among, strip_prefix}
use activerecord.Package.Records.{FieldObject, RecordPackage, new_record_package}
use activerecord.Package.{DeclError, ImportPackage, find_or_add_import}
use activerecord.Checker.{CheckError, check}

pub data AppError : Type 0 where
  bad_pkg_name redefined_package not_regular contains_only_dirs contains_only_files : AppError
  outside_dir : AppError
  check_failed : CheckError → AppError
  failed : AppError

pub data FileType : Type 0 where
  regular dir other : FileType

pub record DirEntry : Type 0 where
  pub name : Bytes
  pub type_of : FileType

-- A file that the generator returns, without its text.
pub record GenerateFile : Type 0 where
  pub gen_dir : Bytes
  pub gen_name : Bytes

-- `written` has the paths that were written, and their directories; it stands for the disk.
pub record ArGen : Type 0 where
  pub dst : Bytes
  pub mod_name : Bytes
  pub src_entry : List DirEntry
  pub dst_entry : List DirEntry
  pub packages_parsed : List (Bytes × RecordPackage)
  pub packages_linked : List (Bytes × Bytes)
  pub file_to_remove : List Bytes

-- `^[a-z]{1,20}$`
abbrev pub all_lower : Bytes → Bool
all_lower [] = true
all_lower (c ∷ cs) = leb b'a' c && leb c b'z' && all_lower cs

unfoldable pub is_pkg_name : Bytes → Bool
is_pkg_name name = ltb 0 (length name) && leb (length name) 20 && all_lower name

-- The new package stands behind the others.
unfoldable pub add_record_package : ArGen → Bytes → Result AppError ArGen
add_record_package a name =
    if not (is_pkg_name name)
    then err bad_pkg_name
    else if has_entry name a.packages_parsed
    then err redefined_package
    else ok (record a { packages_parsed = a.packages_parsed ++ ((name, new_record_package) ∷ []) })

unfoldable pub is_regular : FileType → Bool
is_regular regular = true
is_regular dir = false
is_regular other = false

unfoldable pub is_dir : FileType → Bool
is_dir regular = false
is_dir dir = true
is_dir other = false

-- `source[:len(source)-3]`
unfoldable pub without_suffix : Bytes → Result AppError Bytes
without_suffix source =
    if ltb (length source) 3 then panic else ok (take (length source - 3) source)

-- `delete(m, f)`
abbrev pub without : Bytes → List Bytes → List Bytes
without f [] = []
without f (g ∷ gs) = let rest = without f gs in if same_bytes f g then rest else g ∷ rest

-- `strings.HasSuffix(name, ".go")`
unfoldable pub is_go_file : Bytes → Bool
is_go_file name = same_bytes (drop (length name - 3) name) (codes ".go")

unfoldable pub put_package :
    Bytes → RecordPackage → List (Bytes × RecordPackage) → List (Bytes × RecordPackage)
put_package name rc [] = (name, rc) ∷ []
put_package name rc ((k, old) ∷ m) =
    let rest = put_package name rc m in if same_bytes k name then (k, rc) ∷ m else (k, old) ∷ rest

abbrev pub in_module : Bytes → RecordPackage → RecordPackage
in_module path rc = record rc { namespace = record (rc.namespace) { module_name = path } }

-- packagesLinked: from the name of a package to its key.
unfoldable pub link_packages :
    List (Bytes × RecordPackage) → List (Bytes × Bytes) → List (Bytes × Bytes)
link_packages [] linked = linked
link_packages ((key, pkg) ∷ m) linked = link_packages m ((pkg.namespace.package_name, key) ∷ linked)

-- `a.packagesLinked[name]`, which is empty for a name that is not there.
abbrev pub linked_key : Bytes → List (Bytes × Bytes) → Bytes
linked_key name linked = elim (entry name linked) [ some key ↦ key | none ↦ [] ]

-- `*a.packagesParsed[a.packagesLinked[name]]`
unfoldable pub linked_package : ArGen → Bytes → Result AppError RecordPackage
linked_package a name = elim (entry (linked_key name a.packages_linked) a.packages_parsed) [
  | some rc ↦ ok rc
  | none ↦ panic
]

module _ {A : Type 0} where
  -- An error of the checker or of the imports, as an error of the application.
  abbrev pub checked : Result CheckError A → Result AppError A
  checked (ok a) = ok a
  checked (err e) = err (check_failed e)
  checked panic = panic

  abbrev pub declared : Result DeclError A → Result AppError A
  declared (ok a) = ok a
  declared (err e) = err failed
  declared panic = panic

-- The first loop of prepareGenerate: the packages of the links, and the imports for them.
unfoldable pub link_objects :
    ArGen
    → List (Bytes × FieldObject)
    → ImportPackage
    → Result AppError (ImportPackage × List (Bytes × RecordPackage))
link_objects a [] imports = ok (imports, [])
link_objects a ((k, fo) ∷ fos) imports = do
  rc ← linked_package a fo.object_name
  (imports', imp) ←
      declared (find_or_add_import imports rc.namespace.module_name rc.namespace.package_name)
  (imports'', objects) ← link_objects a fos imports'
  ok (imports'', (fo.object_name, rc) ∷ objects)

module _ (join : Bytes → Bytes → Bytes) where
  -- The files of one directory of the destination. The test of the suffix is that of the directory.
  unfoldable pub dir_files : Bytes → Bytes → List DirEntry → Result AppError (List Bytes)
  dir_files dir_name path [] = ok []
  dir_files dir_name path (f ∷ fs) =
      let rest = dir_files dir_name path fs in
      if is_go_file dir_name
      then rest
      else if is_regular f.type_of
      then (do files ← rest; ok (join path f.name ∷ files))
      else err contains_only_files

  module _ (read_dir : Bytes → Result AppError (List DirEntry)) where
    unfoldable pub get_exists : Bytes → List DirEntry → Result AppError (List Bytes)
    get_exists dst [] = ok []
    get_exists dst (e ∷ es) =
        let rest = get_exists dst es in
        if same_bytes e.name (codes ".argen") || same_bytes e.name (codes "repository.go")
        then rest
        else if not (is_dir e.type_of)
        then err contains_only_dirs
        else do
          entries ← read_dir (join dst e.name)
          files ← dir_files e.name (join dst e.name) entries
          others ← rest
          ok (join dst e.name ∷ (files ++ others))

    unfoldable pub prepare_check : ArGen → Result AppError ArGen
    prepare_check a = do
      exists ← get_exists a.dst a.dst_entry
      ok (record a {
        packages_parsed =
            map
              (λ (kp : Bytes × RecordPackage).
                (kp.0, in_module (join (join a.mod_name a.dst) kp.1.namespace.package_name) kp.1))
              a.packages_parsed;
        packages_linked = link_packages a.packages_parsed a.packages_linked;
        file_to_remove = exists ++ a.file_to_remove;
      })

  module _ (parse_file : Bytes → RecordPackage → Result AppError RecordPackage) where
    unfoldable pub parse_one : Bytes → ArGen → DirEntry → Result AppError ArGen
    parse_one src a e = if not (is_regular e.type_of) then err not_regular else do
      name ← without_suffix e.name
      a' ← add_record_package a name
      rc ← parse_file (join src e.name) (in_module a.mod_name new_record_package)
      ok (record a' { packages_parsed = put_package name rc a'.packages_parsed })

    unfoldable pub parse_all : Bytes → ArGen → List DirEntry → Result AppError ArGen
    parse_all src a [] = ok a
    parse_all src a (e ∷ es) = do a' ← parse_one src a e; parse_all src a' es

  module _ (write : Bytes → Bytes → Result AppError (Unit {0})) where
    unfoldable pub write_to_file : Bytes → Bytes → Result AppError (Unit {0})
    write_to_file dir_pkg file = elim (strip_prefix dir_pkg file) [
      | none ↦ err outside_dir
      | some rest ↦ write dir_pkg file
    ]

    -- saveGenerateResult for the paths that are to be removed.
    unfoldable pub save_files :
        Bytes → List GenerateFile → List Bytes → Result AppError (List Bytes)
    save_files dst [] left = ok left
    save_files dst (g ∷ gs) left = do
      u ← write_to_file (join dst g.gen_dir) (join (join dst g.gen_dir) g.gen_name)
      save_files dst gs
          (without (join dst g.gen_dir) (without (join (join dst g.gen_dir) g.gen_name) left))

    module _
        (generator : RecordPackage
          → List (Bytes × RecordPackage)
          → Result AppError (List GenerateFile)) where
      -- The loop of generate, with the packages, whose imports it adds to, and the files that it saved.
      unfoldable pub generate_packages :
          ArGen
          → List (Bytes × RecordPackage)
          → List Bytes
          → Result AppError (List Bytes × List GenerateFile × List (Bytes × RecordPackage))
      generate_packages a [] left = ok (left, [], a.packages_parsed)
      generate_packages a ((key, cl) ∷ m) left = do
        (imports, objects) ← link_objects a cl.fields_object_map cl.import_package
        files ← generator (record cl { import_package = imports }) objects
        left' ← save_files a.dst files left
        (left'', others, packages) ←
            generate_packages
              (record a {
                packages_parsed =
                    put_package key (record cl { import_package = imports }) a.packages_parsed;
              })
              m left'
        ok (left'', files ++ others, packages)

      unfoldable pub generate :
          (List (Bytes × RecordPackage) → Result AppError (List GenerateFile))
          → ArGen
          → Result AppError (List Bytes × List GenerateFile)
      generate generate_meta a = do
        (left, files, packages) ← generate_packages a a.packages_parsed a.file_to_remove
        meta ← generate_meta packages
        left' ← save_files a.dst meta left
        ok (left', files ++ meta)

-- Which paths exist.
abbrev pub Disk : Type 0
Disk = Bytes → Bool

-- The loop at the end of Run. An error of os.Remove is ignored.
unfoldable pub remove_all : (Bytes → Disk → Disk) → List Bytes → Disk → Disk
remove_all remove [] d = d
remove_all remove (name ∷ names) d = remove_all remove names (remove name d)

-- What Run uses of the rest of the world. `after_writing` is the disk when these files are saved, `remove`
-- is os.Remove, and `order` the order in which Go takes the names in fileToRemove.
pub record Environment : Type 0 where
  pub join : Bytes → Bytes → Bytes
  pub read_dir : Bytes → Result AppError (List DirEntry)
  pub parse_file : Bytes → RecordPackage → Result AppError RecordPackage
  pub write : Bytes → Bytes → Result AppError (Unit {0})
  pub generator : RecordPackage → List (Bytes × RecordPackage) → Result AppError (List GenerateFile)
  pub generate_meta : List (Bytes × RecordPackage) → Result AppError (List GenerateFile)
  pub after_writing : List GenerateFile → Disk
  pub order : List Bytes → List Bytes
  pub remove : Bytes → Disk → Disk

-- Run: the state before the generation; the disk at its end, with the files it saved.
unfoldable pub prepared : Environment → Bytes → ArGen → Result AppError ArGen
prepared env src a = do
  a' ← parse_all env.join env.parse_file src a a.src_entry
  a'' ← prepare_check env.join env.read_dir a'
  u ← checked (check a''.packages_parsed a''.packages_linked)
  ok a''

unfoldable pub run : Environment → Bytes → ArGen → Result AppError (Disk × List GenerateFile)
run env src a = do
  a' ← prepared env src a
  (left, files) ← generate env.join env.write env.generator env.generate_meta a'
  ok (remove_all env.remove (env.order left) (env.after_writing files), files)
