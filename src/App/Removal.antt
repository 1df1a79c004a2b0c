-- ===== src/App/Removal.antt =====
-- What Run has removed when it ends.
use activerecord.Prelude.{
  Bool, ◌⊎◌, List, ◌++◌, true, false, if◌then◌else◌, ◌≡◌, refl, subst, ◌∙◌, Bool-cases, inl, inr,
}
use activerecord.Go.{ok, Bytes, bind_ok, ok_same}
use activerecord.Go.Strings.{among}
use activerecord.App.Cleaning.{IsOsRemove, left_or_gone, not_named, named_file}
use activerecord.App.Leftover.{paths, generated_left}
use activerecord.App.{
  GenerateFile, ArGen, Environment, get_exists, generate, prepared, run, Disk, remove_all,
}

-- What has become of a path: it is as it was, and then it was saved, or is not listed, or is not a file that
-- can be removed; or else it is gone, and then it was listed and not saved.
abbrev pub Fate : Bool → Bool → Bool → Bool → Bool → Type 0
Fate saved listed is_file before now =
    ((now ≡ before) × ((saved ≡ true) ⊎ ((listed ≡ false) ⊎ (is_file ≡ false))))
    ⊎ ((saved ≡ false) × (listed ≡ true) × (now ≡ false))

fate_lem :
    (env : Environment) (is_file : Bytes → Bool) (left : List Bytes) (d : Disk) (f : Bytes)
    (saved listed : Bool)
    → IsOsRemove env.remove is_file
    → ((g : Bytes) (xs : List Bytes) → among g (env.order xs) ≡ among g xs)
    → among f left ≡ (if saved then false else listed)
    → Fate saved listed (is_file f) (d f) (remove_all env.remove (env.order left) d f)
fate_lem env is_file left d f true listed h o e =
    inl (not_named env.remove is_file h f (env.order left) d (o f left ∙ e), inl refl)
fate_lem env is_file left d f false false h o e =
    inl (not_named env.remove is_file h f (env.order left) d (o f left ∙ e), inr (inl refl))
fate_lem env is_file left d f false true h o e = elim (Bool-cases (is_file f)) [
  | inl k ↦ inr (refl, refl, named_file env.remove is_file h f (env.order left) d k (o f left ∙ e))
  | inr k ↦ elim (left_or_gone env.remove is_file h f (env.order left) d) [
    | inl s ↦ inl (s, inr (inr k))
    | inr s ↦ inr (refl, refl, s)
  ]
]

-- When Run succeeds without stores of fixtures, and os.Remove does what its documentation says, in
-- whatever order Go takes the names: a path is as the writing of the files left it, and then it is a
-- file that was saved or the directory of one, or it was neither in the listing of the destination nor
-- to be removed before, or it is not a file that os.Remove is sure to remove (as a directory); or the
-- path is gone, and then it was in the listing, or to be removed before, and was not saved.
pub removed_lem :
    (env : Environment) (is_file : Bytes → Bool) (src : Bytes) (a : ArGen) (disk : Disk)
    (files : List GenerateFile)
    → IsOsRemove env.remove is_file
    → ((g : Bytes) (xs : List Bytes) → among g (env.order xs) ≡ among g xs)
    → run env src a ≡ ok (disk, files)
    → (exists : List Bytes) × (get_exists env.join env.read_dir a.dst a.dst_entry ≡ ok exists)
      × ((f : Bytes)
          → Fate
              (among f (paths env.join a.dst files))
              (among f (exists ++ a.file_to_remove))
              (is_file f)
              (env.after_writing files f)
              (disk f))
unfolding run
removed_lem env is_file src a disk files h o e =
    let (b, e1, h1) = bind_ok (prepared env src a) _ e in
    let ((left, saved), e2, h2) =
      bind_ok (generate env.join env.write env.generator env.generate_meta b) _ h1 in
    let (exists, g, l) = generated_left env src a b left saved e1 e2 in
    subst
      (λ (p : Disk × List GenerateFile).
        (exists : List Bytes) × (get_exists env.join env.read_dir a.dst a.dst_entry ≡ ok exists)
        × ((f : Bytes)
            → Fate (among f (paths env.join a.dst p.1)) (among f (exists ++ a.file_to_remove))
                (is_file f) (env.after_writing (p.1) f) ((p.0) f)))
      (ok_same h2)
      (exists, g, λ f. fate_lem env is_file left (env.after_writing saved) f _ _ h o (l f))
