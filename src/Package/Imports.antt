-- ===== src/Package/Imports.antt =====
-- The lists of imports stay consistent with their maps.
use activerecord.Prelude.{
  ℕ, ◌<◌, ◌≤◌, List, [], ◌∷◌, length, length-append, some, ◌≡◌, ◌≢◌, refl, arith, All, Bool-cases,
  Option-cases, inl, inr,
}
use activerecord.Go.Strings.{same_bytes, entry}
use activerecord.Go.{Result, ok, err, panic, Bytes, ◌>>=◌}
use activerecord.Cluster.Shard.Rotation.{get_elem?-lt}
use activerecord.Package.{
  ImportPackage, ImportDeclaration, DeclError, add_import, add_named, add_by_pkg, import_at,
  same_path, same_name, new_import, import_names, get_import_name, named, last_name, drop_quote,
}

-- Each entry of a map is a place of the list.
abbrev pub InRange : ℕ → List (Bytes × ℕ) → Type 0
InRange n m = All (λ e. e.1 < n) m

pub record IsConsistent (rc : ImportPackage) : Type 0 where
  pub paths : InRange (length rc.imports) rc.import_map
  pub pkgs : InRange (length rc.imports) rc.import_pkg_map

-- What a call may return: no panic, and a package that is consistent.
abbrev pub Keeps : Result DeclError (ImportPackage × ImportDeclaration) → Type 0
Keeps (ok (rc, imp)) = IsConsistent rc
Keeps (err e) = Unit {0}
Keeps panic = ⊥

InRange-entry :
    (n i : ℕ) (k : Bytes) (m : List (Bytes × ℕ)) → InRange n m → entry k m ≡ some i → i < n
InRange-entry n i k [] h e = cc
InRange-entry n i k ((j, a) ∷ m) h e = elim (Bool-cases (same_bytes j k)) [
  | inl f ↦ ground (arith, rw (f, entry) at e)
  | inr f ↦ InRange-entry n i k m h.1 (rw (f, entry) at e)
]

InRange-le : (n k : ℕ) (m : List (Bytes × ℕ)) → n ≤ k → InRange n m → InRange k m
InRange-le n k [] le h = tt
InRange-le n k (e ∷ m) le h = (omega arith, InRange-le n k m le h.1)

import_at_ok :
    (rc : ImportPackage) (i : ℕ)
    → i < length rc.imports
    → (imp : ImportDeclaration) × (import_at rc i ≡ ok imp)
unfolding import_at
import_at_ok rc i h = let (imp, e) = get_elem?-lt rc.imports i h in (imp, rw (e, import_at) refl)

new_import-IsConsistent :
    (rc : ImportPackage) (path result_name search_name : Bytes)
    → IsConsistent rc
    → IsConsistent (new_import rc path result_name search_name).0
unfolding new_import
new_import-IsConsistent rc path result_name search_name h =
    let long = length-append rc.imports (record { path = path; import_name = result_name } ∷ []) in
    record {
      paths = (omega (arith, long), InRange-le _ _ rc.import_map (omega (arith, long)) h.paths);
      pkgs = (omega (arith, long), InRange-le _ _ rc.import_pkg_map (omega (arith, long)) h.pkgs);
    }

same_path-Keeps :
    (rc : ImportPackage) (path : Bytes) (imp : ImportDeclaration)
    → IsConsistent rc
    → Keeps (same_path rc path imp)
unfolding same_path
same_path-Keeps rc path imp h = elim (Bool-cases (same_bytes imp.path path)) [
  | inl e ↦ rw (e, same_path) h
  | inr e ↦ rw (e, same_path) tt
]

named-ne-panic : (name : Bytes) → named name ≢ panic
unfolding named
named-ne-panic [] e = cc
named-ne-panic (c ∷ cs) e = cc

add_by_pkg-Keeps :
    (rc : ImportPackage) (path result_name search_name : Bytes)
    → IsConsistent rc
    → Keeps (add_by_pkg rc path result_name search_name)
unfolding add_by_pkg
add_by_pkg-Keeps rc path result_name search_name h =
    elim (Option-cases (entry search_name rc.import_pkg_map)) [
      | inl e ↦ rw (e, add_by_pkg) (new_import-IsConsistent rc path result_name search_name h)
      | inr (i, e) ↦
          let (imp, there) =
            import_at_ok rc i
              (InRange-entry (length rc.imports) i search_name rc.import_pkg_map h.pkgs e) in
          rw (e, add_by_pkg) (rw there (same_path-Keeps rc path imp h))
    ]

same_name-Keeps :
    (rc : ImportPackage) (path result_name search_name : Bytes) (imp : ImportDeclaration)
    → IsConsistent rc
    → Keeps (same_name rc path result_name search_name imp)
unfolding same_name
same_name-Keeps rc path result_name search_name imp h =
    elim (Bool-cases (same_bytes imp.import_name result_name)) [
      | inl e ↦ rw (e, same_name) h
      | inr e ↦ rw (e, same_name) (add_by_pkg-Keeps rc path result_name search_name h)
    ]

add_named-Keeps :
    (rc : ImportPackage) (path : Bytes) (names : Bytes × Bytes)
    → IsConsistent rc
    → Keeps (add_named rc path names)
unfolding add_named
add_named-Keeps rc path (result_name, search_name) h =
    elim (Option-cases (entry path rc.import_map)) [
      | inl e ↦ rw (e, add_named) (add_by_pkg-Keeps rc path result_name search_name h)
      | inr (i, e) ↦
          let (imp, there) =
            import_at_ok rc i (InRange-entry (length rc.imports) i path rc.import_map h.paths e) in
          rw (e, add_named) (rw there (same_name-Keeps rc path result_name search_name imp h))
    ]

named_Keeps :
    (rc : ImportPackage) (path : Bytes) (f : Bytes → Bytes × Bytes)
    (search : Result DeclError Bytes)
    → IsConsistent rc
    → search ≢ panic
    → Keeps (search >>= λ s. add_named rc path (f s))
named_Keeps rc path f (ok s) h safe = add_named-Keeps rc path (f s) h
named_Keeps rc path f (err e) h safe = tt
named_Keeps rc path f panic h safe = absurd (safe refl)

get_import_name-ne-panic : (path : Bytes) → get_import_name path ≢ panic
unfolding get_import_name
get_import_name-ne-panic path = named-ne-panic (last_name [] (drop_quote path))

-- AddImport does not panic on a package whose maps hold places of its list, and leaves such a
-- package, whatever path and names it is given.
pub add_import-IsConsistent :
    (rc : ImportPackage) (path : Bytes) (names : List Bytes)
    → IsConsistent rc
    → Keeps (add_import rc path names)
unfolding add_import
add_import-IsConsistent rc path [] h =
    named_Keeps rc path (λ s. ([], s)) (get_import_name path) h (get_import_name-ne-panic path)
add_import-IsConsistent rc path (name ∷ []) h =
    named_Keeps rc path (import_names name) (get_import_name path) h (get_import_name-ne-panic path)
add_import-IsConsistent rc path (name ∷ other ∷ names) h = tt
