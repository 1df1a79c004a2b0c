-- ===== src/App/Links.antt =====
-- After the checker has accepted the packages, each link leads to a package.
use activerecord.Prelude.{
  List, [], ◌∷◌, map, All, some, true, if◌then◌else◌, ◌≡◌, refl, sym, ap, subst, ◌∙◌, ◌⊎◌,
  Bool-cases, inl, inr, arith,
}
use activerecord.Go.{Result, ok, err, panic, Bytes, bind_ok, ok_same}
use activerecord.Go.Strings.{same_bytes, same_bytes_refl, entry, has_entry}
use activerecord.Package.Records.{RecordPackage, FieldObject}
use activerecord.Checker.{CheckError, check}
use activerecord.Checker.Accepted.Packages.{check_lem}
use activerecord.App.{
  ArGen, Environment, get_exists, prepare_check, checked, parse_all, prepared, in_module,
  link_packages, linked_package,
}
use activerecord.App.Leftover.{Untouched, parse_all-Untouched}

has_entry-entry :
    {A : Type 0} (k : Bytes) (m : List (Bytes × A))
    → has_entry k m ≡ true
    → (a : A) × (entry k m ≡ some a)
has_entry-entry k [] h = absurd (cc)
has_entry-entry k ((j, a) ∷ m) h = elim (Bool-cases (same_bytes j k)) [
  | inl e ↦ (a, rw (e, if◌then◌else◌) refl)
  | inr e ↦ rw (e, if◌then◌else◌) (has_entry-entry k m (rw (e, if◌then◌else◌) at h))
]

has_entry-map :
    {A B : Type 0} (f : Bytes → A → B) (k : Bytes) (m : List (Bytes × A))
    → has_entry k (map (λ (e : Bytes × A). (e.0, f e.0 e.1)) m) ≡ has_entry k m
has_entry-map f k [] = refl
has_entry-map f k ((j, a) ∷ m) = ground (arith, has_entry-map f k m)

-- The key that a link leads to is that of a package.
entry-link_packages :
    (m : List (Bytes × RecordPackage)) (acc : List (Bytes × Bytes)) (n key : Bytes)
    → entry n (link_packages m acc) ≡ some key
    → (has_entry key m ≡ true) ⊎ (entry n acc ≡ some key)
unfolding link_packages
entry-link_packages [] acc n key h = inr h
entry-link_packages ((k, p) ∷ m) acc n key h =
    elim (entry-link_packages m ((p.namespace.package_name, k) ∷ acc) n key h) [
      | inl g ↦ inl (ground (arith, g))
      | inr g ↦ ground (arith, g, same_bytes_refl k)
    ]

abbrev pub Leads : ArGen → Bytes × FieldObject → Type 0
Leads b kf = (rc : RecordPackage) × (linked_package b kf.1.object_name ≡ ok rc)

checked_ok : (r : Result CheckError (Unit {0})) → checked r ≡ ok tt → r ≡ ok tt
checked_ok (ok tt) h = refl
checked_ok (err e) h = absurd (cc)
checked_ok panic h = absurd (cc)

All-mono :
    {A : Type 0} {P Q : A → Type 0} (xs : List A) → ((x : A) → P x → Q x) → All P xs → All Q xs
All-mono [] f h = tt
All-mono (x ∷ xs) f h = (f x h.0, All-mono xs f h.1)

package_found :
    (b : ArGen) (n key : Bytes) (rc : RecordPackage)
    → entry n b.packages_linked ≡ some key
    → entry key b.packages_parsed ≡ some rc
    → linked_package b n ≡ ok rc
unfolding linked_package
package_found b n key rc k r = ground arith

link_found :
    (path : RecordPackage → Bytes) (m : List (Bytes × RecordPackage)) (b : ArGen) (n : Bytes)
    → b.packages_linked ≡ link_packages m []
    → b.packages_parsed ≡ map (λ (kp : Bytes × RecordPackage). (kp.0, in_module (path kp.1) kp.1)) m
    → has_entry n b.packages_linked ≡ true
    → (rc : RecordPackage) × (linked_package b n ≡ ok rc)
link_found path m b n e f h =
    let (key, k) = has_entry-entry n b.packages_linked h in
    let there : has_entry key m ≡ true =
      elim (entry-link_packages m [] n key (subst (λ l. entry n l ≡ some key) e k)) [
        | inl g ↦ g
        | inr g ↦ absurd (cc)
      ] in
    let parsed : has_entry key b.packages_parsed ≡ true =
      rw f (
        has_entry-map (λ (j : Bytes) (rc : RecordPackage). in_module (path rc) rc) key m ∙ there) in
    let (rc, r) = has_entry-entry key b.packages_parsed parsed in (rc, package_found b n key rc k r)

-- What stands in the state that the checker has accepted.
record Prepared (linked : List (Bytes × Bytes)) (b : ArGen) : Type 0 where
  path : RecordPackage → Bytes
  sources : List (Bytes × RecordPackage)
  linked_lem : b.packages_linked ≡ link_packages sources linked
  parsed_lem :
      b.packages_parsed
      ≡ map (λ (kp : Bytes × RecordPackage). (kp.0, in_module (path kp.1) kp.1)) sources
  checked_lem : check b.packages_parsed b.packages_linked ≡ ok tt

prepare_check-Prepared :
    (env : Environment) (c b : ArGen)
    → prepare_check env.join env.read_dir c ≡ ok b
    → check b.packages_parsed b.packages_linked ≡ ok tt
    → Prepared c.packages_linked b
unfolding prepare_check
prepare_check-Prepared env c b e h =
    let (exists, e4, h4) = bind_ok (get_exists env.join env.read_dir c.dst c.dst_entry) _ e in
    let p = ok_same h4 in
    record {
      path = λ pkg. env.join (env.join c.mod_name c.dst) pkg.namespace.package_name;
      sources = c.packages_parsed;
      linked_lem = ap (λ r. r.packages_linked) (sym p);
      parsed_lem = ap (λ r. r.packages_parsed) (sym p);
      checked_lem = h;
    }

prepared-Prepared :
    (env : Environment) (src : Bytes) (a b : ArGen)
    → prepared env src a ≡ ok b
    → Prepared a.packages_linked b
unfolding prepared Untouched
prepared-Prepared env src a b e =
    let (c, e1, h1) = bind_ok (parse_all env.join env.parse_file src a a.src_entry) _ e in
    let (d, e2, h2) = bind_ok (prepare_check env.join env.read_dir c) _ h1 in
    let (u, e3, h3) = bind_ok (checked (check d.packages_parsed d.packages_linked)) _ h2 in
    let (x, y, v, w) = parse_all-Untouched env.join env.parse_file src a c a.src_entry e1 in
    subst (λ l. Prepared l b) w
      (subst (Prepared c.packages_linked) (ok_same h3)
        (prepare_check-Prepared env c d e2 (checked_ok _ e3)))

-- When parsing and the checker have succeeded, each link of each package leads to a package that was
-- parsed, so that prepareGenerate, which does not test it, reads no nil package.
pub links_lem :
    (env : Environment) (src : Bytes) (a b : ArGen)
    → a.packages_linked ≡ []
    → prepared env src a ≡ ok b
    → All (λ (kp : Bytes × RecordPackage). All (Leads b) kp.1.fields_object_map) b.packages_parsed
links_lem env src a b z e =
    let r = subst (λ l. Prepared l b) z (prepared-Prepared env src a b e) in
    All-mono b.packages_parsed
      (λ kp h.
        All-mono kp.1.fields_object_map
          (λ kf k. link_found r.path r.sources b kf.1.object_name r.linked_lem r.parsed_lem k)
          h.linked_lem)
      (check_lem b.packages_parsed b.packages_linked r.checked_lem)
