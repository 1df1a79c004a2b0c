-- ===== src/Checker/Accepted.antt =====
-- What a package is like that the checker accepts, said without the checker.
pub mod Fields
pub mod Packages
use activerecord.Prelude.{
  ℕ, ◌≤◌, ◌<◌, List, [], ◌∷◌, length, Option, none, some, Bool, true, false, ◌≡◌, ◌≢◌, ◌⊎◌, suc,
  All, ℤ, pos,
}
use activerecord.Go.{ok, Bytes}
use activerecord.Go.Strings.{codes, among, entry, has_entry}
use activerecord.Go.Numbers.{parse_int}
use activerecord.Package.Records.{
  FieldDeclaration, FieldObject, IndexDeclaration, MutatorDeclaration, ProcFieldDeclaration,
  untyped, RecordPackage,
}
use activerecord.Package.Procedures.{field_mutators, list_params}
use activerecord.Checker.{CheckError, all_format, all_proc_format, octopus_in_formats}

-- A serializer, if there is one, is declared.
abbrev pub HasSerializer : RecordPackage → List Bytes → Type 0
HasSerializer cl [] = Unit {0}
HasSerializer cl (s ∷ ss) = has_entry s cl.serializer_map ≡ true

-- A mutator is built in, or declared in the package; one with partial fields needs a serializer.
abbrev pub MutatorAccepted : RecordPackage → FieldDeclaration → Bytes → Type 0
MutatorAccepted cl f m =
    ((entry m cl.mutator_map ≡ none) × (among m field_mutators ≡ true))
    ⊎ ((d : MutatorDeclaration) × (entry m cl.mutator_map ≡ some d)
        × ((f.serializer ≢ []) ⊎ (d.partial_fields ≡ [])))

-- The number of mutators of a list that the package declares.
abbrev pub custom_count : RecordPackage → List Bytes → ℕ
custom_count cl [] = 0
custom_count cl (m ∷ ms) = elim (entry m cl.mutator_map) [
  | some d ↦ suc (custom_count cl ms)
  | none ↦ custom_count cl ms
]

pub record FieldAccepted (cl : RecordPackage) (f : FieldDeclaration) : Type 0 where
  pub format_lem : among f.format all_format ≡ true
  pub serializer_lem : HasSerializer cl f.serializer
  pub mutators_lem : All (MutatorAccepted cl f) f.mutators
  pub one_custom : custom_count cl f.mutators ≤ 1
  pub no_key : f.mutators ≢ [] → f.primary_key ≡ false
  pub no_link : f.mutators ≢ [] → f.object_link ≡ []
  pub serialized_no_link : f.serializer ≢ [] → f.object_link ≡ []
  pub name_lem : has_entry f.name cl.fields_object_map ≡ false

pub record ParamAccepted (formats : List Bytes) (cl : RecordPackage) (f : ProcFieldDeclaration)
    : Type 0 where
  pub format_lem : among f.format formats ≡ true
  pub serializer_lem : HasSerializer cl f.serializer
  pub typed : f.parameter_type ≢ untyped

-- An input parameter for octopus: a text, or serialized to one of the formats of a text.
abbrev pub InAccepted : ProcFieldDeclaration → Type 0
InAccepted f =
    (among f.format octopus_in_formats ≡ true) × ((f.format ≡ codes "string") ⊎ (f.serializer ≢ []))

-- The order indexes of n output parameters are below n.
abbrev pub InOrder : ℕ → ℤ × ProcFieldDeclaration → Type 0
InOrder n p = (i : ℕ) × (p.0 ≡ pos i) × (i < n)

abbrev pub HasPrimary : List FieldDeclaration → Type 0
HasPrimary [] = ⊥
HasPrimary (f ∷ fs) = (f.primary_key ≡ true) ⊎ HasPrimary fs

pub record PackageAccepted (linked : List (Bytes × Bytes)) (cl : RecordPackage) : Type 0 where
  pub backend_lem : cl.backends ≡ codes "octopus" ∷ []
  pub package_named : cl.namespace.package_name ≢ []
  pub public_named : cl.namespace.public_name ≢ []
  pub linked_lem :
      All
        (λ (kf : Bytes × FieldObject). has_entry kf.1.object_name linked ≡ true)
        cl.fields_object_map
  pub fields_lem : All (FieldAccepted cl) cl.fields
  pub outs_lem :
      (outs : List ProcFieldDeclaration) × (list_params {E = CheckError} cl.proc_out_fields
        ≡ ok outs)
      × All (ParamAccepted all_format cl) outs
  pub in_order : All (InOrder (length cl.proc_out_fields)) cl.proc_out_fields
  pub ins_lem : All (ParamAccepted all_proc_format cl) cl.proc_in_fields
  pub octopus_ins_lem : All InAccepted cl.proc_in_fields
  pub one_kind :
      ((cl.fields ≢ []) × (cl.proc_out_fields ≡ []))
      ⊎ ((cl.fields ≡ []) × (cl.proc_out_fields ≢ []))
  pub primary_lem : cl.fields ≢ [] → HasPrimary cl.fields
  pub numbered : cl.fields ≢ [] → (n : ℤ) × (parse_int cl.namespace.object_name ≡ some n)
  pub server_lem :
      ((cl.server.host ≢ []) × (cl.server.conf ≡ []))
      ⊎ ((cl.server.host ≡ []) × (cl.server.port ≡ []) × (cl.server.conf ≢ []))
  pub indexes_lem : All (λ (ind : IndexDeclaration). ind.ind_fields ≢ []) cl.indexes
