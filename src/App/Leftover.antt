-- ===== src/App/Leftover.antt =====
-- The names that are to be removed when the files are generated.
use activerecord.Prelude.{
  List, [], ◌∷◌, ◌++◌, true, false, false≢true, not, if◌then◌else◌, ◌≡◌, refl, sym, ap, ap₂, subst,
  ◌∙◌, Bool-cases, inl, inr, arith,
}
use activerecord.Go.{Result, ok, Bytes, bind_ok, ok_same}
use activerecord.Go.Strings.{same_bytes, same_bytes_refl, same_bytes_eq, among}
use activerecord.Package.Records.{RecordPackage}
use activerecord.Checker.{check}
use activerecord.App.{
  AppError, DirEntry, GenerateFile, ArGen, Environment, is_regular, add_record_package,
  without_suffix, without, get_exists, prepare_check, checked, link_objects, parse_one, parse_all,
  write_to_file, save_files, generate_packages, generate, prepared,
}

-- The paths of files that were saved, and of their directories.
abbrev pub paths : (Bytes → Bytes → Bytes) → Bytes → List GenerateFile → List Bytes
paths join dst [] = []
paths join dst (g ∷ gs) =
    join (join dst g.gen_dir) g.gen_name ∷ (join dst g.gen_dir ∷ paths join dst gs)

other_path : (f g x : Bytes) → same_bytes g x ≡ false → f ≡ x → same_bytes f g ≡ false
other_path f g x e h = elim (Bool-cases (same_bytes f g)) [
  | inr z ↦ z
  | inl t ↦
      let same =
        subst (λ y. same_bytes g y ≡ true) (sym (same_bytes_eq f g t) ∙ h) (same_bytes_refl g) in
      absurd (false≢true (sym e ∙ same))
]

among-without :
    (f g : Bytes) (xs : List Bytes)
    → among f (without g xs) ≡ (if same_bytes f g then false else among f xs)
among-without f g [] = ground arith
among-without f g (x ∷ xs) = elim (Bool-cases (same_bytes g x)) [
  | inl e ↦
      rw (e, if◌then◌else◌)
        (among-without f g xs
          ∙ (let h = same_bytes_eq g x e in ground (arith, ap (same_bytes f) h)))
  | inr e ↦ elim (Bool-cases (same_bytes f x)) [
    | inl k ↦
        (let h = same_bytes_eq f x k in
          let d = other_path f g x e h in rw (e, k, d, if◌then◌else◌) refl)
    | inr k ↦ rw (e, k, if◌then◌else◌) (among-without f g xs)
  ]
]

module _ (join : Bytes → Bytes → Bytes) (write : Bytes → Bytes → Result AppError (Unit {0}))
    (f : Bytes) where
  save_files_left :
      (dst : Bytes) (gs : List GenerateFile) (left left' : List Bytes)
      → save_files join write dst gs left ≡ ok left'
      → among f left' ≡ (if among f (paths join dst gs) then false else among f left)
  unfolding save_files
  save_files_left dst [] left left' e = ap (among f) (sym (ok_same e))
  save_files_left dst (g ∷ gs) left left' e =
      let (u, a, b) =
        bind_ok
          (write_to_file join write (join dst g.gen_dir) (join (join dst g.gen_dir) g.gen_name)) _
          e in
      let c = save_files_left dst gs _ left' b in
      let d =
        among-without f (join dst g.gen_dir)
          (without (join (join dst g.gen_dir) g.gen_name) left) in
      let k = among-without f (join (join dst g.gen_dir) g.gen_name) left in ground (arith, c, d, k)

  paths-append :
      (dst : Bytes) (gs hs : List GenerateFile)
      → among f (paths join dst (gs ++ hs))
        ≡ (if among f (paths join dst gs) then true else among f (paths join dst hs))
  paths-append dst [] hs = refl
  paths-append dst (g ∷ gs) hs = ground (arith, paths-append dst gs hs)

  module _
      (generator : RecordPackage
        → List (Bytes × RecordPackage)
        → Result AppError (List GenerateFile)) where
    generate_packages_left :
        (m : List (Bytes × RecordPackage)) (a : ArGen) (left : List Bytes)
        (r : List Bytes × List GenerateFile × List (Bytes × RecordPackage))
        → generate_packages join write generator a m left ≡ ok r
        → among f (r.0) ≡ (if among f (paths join a.dst (r.1)) then false else among f left)
    unfolding generate_packages
    generate_packages_left [] a left r e =
        let p = ok_same e in
        ground (arith, ap (λ t. among f (t.0)) p, ap (λ t. among f (paths join a.dst (t.1))) p)
    generate_packages_left ((key, cl) ∷ m) a left r e =
        let (l, e1, h1) = bind_ok (link_objects a cl.fields_object_map cl.import_package) _ e in
        let (fs, e2, h2) = bind_ok (generator _ (l.1)) _ h1 in
        let (mid, e3, h3) = bind_ok (save_files join write a.dst fs left) _ h2 in
        let (q, e4, h4) = bind_ok (generate_packages join write generator _ m mid) _ h3 in
        let p = ok_same h4 in
        let x = save_files_left a.dst fs left mid e3 in
        let y = generate_packages_left m _ mid q e4 in
        let z = paths-append a.dst fs (q.1) in
        ground
          (arith, x, y, z, ap (λ t. among f (t.0)) p, ap (λ t. among f (paths join a.dst (t.1))) p)

-- What parsing leaves alone.
unfoldable pub Untouched : ArGen → ArGen → Type 0
Untouched a b =
    (b.dst ≡ a.dst)
    × (b.dst_entry ≡ a.dst_entry)
    × (b.file_to_remove ≡ a.file_to_remove)
    × (b.packages_linked ≡ a.packages_linked)

add_record_package-Untouched :
    (a b : ArGen) (name : Bytes) → add_record_package a name ≡ ok b → Untouched a b
unfolding add_record_package Untouched
add_record_package-Untouched a b name e = (ground arith, ground arith, ground arith, ground arith)

module _ (join : Bytes → Bytes → Bytes)
    (parse_file : Bytes → RecordPackage → Result AppError RecordPackage) (src : Bytes) where
  parse_one-Untouched :
      (a b : ArGen) (d : DirEntry) → parse_one join parse_file src a d ≡ ok b → Untouched a b
  unfolding parse_one Untouched
  parse_one-Untouched a b d e = elim (Bool-cases (is_regular d.type_of)) [
    | inr k ↦ (let h = rw (k, not, if◌then◌else◌) at e in absurd (cc))
    | inl k ↦
        let h = rw (k, not, if◌then◌else◌) at e in
        let (name, e1, h1) = bind_ok (without_suffix d.name) _ h in
        let (c, e2, h2) = bind_ok (add_record_package a name) _ h1 in
        let (rc, e3, h3) = bind_ok (parse_file _ _) _ h2 in
        let p = ok_same h3 in
        let (x, y, z, w) = add_record_package-Untouched a c name e2 in
        (
          ap (λ r. r.dst) (sym p) ∙ x,
          ap (λ r. r.dst_entry) (sym p) ∙ y,
          ap (λ r. r.file_to_remove) (sym p) ∙ z,
          ap (λ r. r.packages_linked) (sym p) ∙ w,
        )
  ]

  pub parse_all-Untouched :
      (a b : ArGen) (ds : List DirEntry) → parse_all join parse_file src a ds ≡ ok b → Untouched a b
  unfolding parse_all Untouched
  parse_all-Untouched a b [] e = subst (Untouched a) (ok_same e) (refl, refl, refl, refl)
  parse_all-Untouched a b (d ∷ ds) e =
      let (c, e1, h1) = bind_ok (parse_one join parse_file src a d) _ e in
      let (x, y, z, w) = parse_one-Untouched a c d e1 in
      let (x', y', z', w') = parse_all-Untouched c b ds h1 in (x' ∙ x, y' ∙ y, z' ∙ z, w' ∙ w)

prepared_left :
    (env : Environment) (src : Bytes) (a b : ArGen)
    → prepared env src a ≡ ok b
    → (b.dst ≡ a.dst)
      × (exists : List Bytes) × (get_exists env.join env.read_dir a.dst a.dst_entry ≡ ok exists)
      × (b.file_to_remove ≡ exists ++ a.file_to_remove)
unfolding prepared prepare_check Untouched
prepared_left env src a b e =
    let (c, e1, h1) = bind_ok (parse_all env.join env.parse_file src a a.src_entry) _ e in
    let (d, e2, h2) = bind_ok (prepare_check env.join env.read_dir c) _ h1 in
    let (u, e3, h3) = bind_ok (checked (check d.packages_parsed d.packages_linked)) _ h2 in
    let p = ok_same h3 in
    let (exists, e4, h4) = bind_ok (get_exists env.join env.read_dir c.dst c.dst_entry) _ e2 in
    let q = ok_same h4 ∙ p in
    let (x, y, z, w) = parse_all-Untouched env.join env.parse_file src a c a.src_entry e1 in
    (
      ap (λ r. r.dst) (sym q) ∙ x,
      exists,
      ap₂ (λ s t. get_exists env.join env.read_dir s t) (sym x) (sym y) ∙ e4,
      ap (λ r. r.file_to_remove) (sym q) ∙ ap (λ l. exists ++ l) z,
    )

-- What is to be removed when the files are generated.
pub generated_left :
    (env : Environment) (src : Bytes) (a b : ArGen) (left : List Bytes) (files : List GenerateFile)
    → prepared env src a ≡ ok b
    → generate env.join env.write env.generator env.generate_meta b ≡ ok (left, files)
    → (exists : List Bytes) × (get_exists env.join env.read_dir a.dst a.dst_entry ≡ ok exists)
      × ((f : Bytes)
          → among f left ≡ (
              if among f (paths env.join a.dst files)
              then false
              else among f (exists ++ a.file_to_remove)))
unfolding generate
generated_left env src a b left files e1 h1 =
    let (r, e2, h2) =
      bind_ok
        (generate_packages env.join env.write env.generator b b.packages_parsed b.file_to_remove) _
        h1 in
    let (meta, e3, h3) = bind_ok (env.generate_meta (r.2)) _ h2 in
    let (left', e4, h4) = bind_ok (save_files env.join env.write b.dst meta (r.0)) _ h3 in
    let p = ok_same h4 in
    let (d, exists, g, m) = prepared_left env src a b e1 in
    (
      exists,
      g,
      λ f.
          (let x =
              generate_packages_left env.join env.write f env.generator b.packages_parsed b
                b.file_to_remove r e2 in
            let y = save_files_left env.join env.write f b.dst meta (r.0) left' e4 in
            let z = paths-append env.join env.write f b.dst (r.1) meta in
            let k = ap (λ s. among f (paths env.join s files)) d in
            ground (
              arith,
              x,
              y,
              z,
              k,
              ap (λ l. among f l) m,
              ap (λ t. among f (t.0)) p,
              ap (λ t. among f (paths env.join b.dst (t.1))) p,
            )),
    )
