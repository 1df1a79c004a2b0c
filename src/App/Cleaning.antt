-- ===== src/App/Cleaning.antt =====
-- The loop over os.Remove at the end of Run.
use activerecord.Prelude.{
  List, [], ◌∷◌, Bool, true, false, if◌then◌else◌, ◌≡◌, refl, subst, ◌∙◌, ◌⊎◌, inl, inr, Bool-cases,
}
use activerecord.Go.{Bytes}
use activerecord.Go.Strings.{same_bytes, same_bytes_eq, among}
use activerecord.App.{Disk, remove_all}

-- What os.Remove does: it leaves the other paths alone, it removes its path or (with an error that the
-- caller ignores, as for a directory that is not empty) leaves it, and a path of `is_file`, a file that
-- the process may remove, it does remove.
pub record IsOsRemove (remove : Bytes → Disk → Disk) (is_file : Bytes → Bool) : Type 0 where
  pub others : (f name : Bytes) (d : Disk) → same_bytes f name ≡ false → remove name d f ≡ d f
  pub one : (name : Bytes) (d : Disk) → (remove name d name ≡ d name) ⊎ (remove name d name ≡ false)
  pub file : (name : Bytes) (d : Disk) → is_file name ≡ true → remove name d name ≡ false

module _ (remove : Bytes → Disk → Disk) (is_file : Bytes → Bool) (h : IsOsRemove remove is_file)
    (f : Bytes) where
  one_step : (name : Bytes) (d : Disk) → (remove name d f ≡ d f) ⊎ (remove name d f ≡ false)
  one_step name d = elim (Bool-cases (same_bytes f name)) [
    | inr e ↦ inl (h.others f name d e)
    | inl e ↦
        subst (λ g. (remove g d f ≡ d f) ⊎ (remove g d f ≡ false)) (same_bytes_eq f name e)
          (h.one f d)
  ]

  pub left_or_gone :
      (names : List Bytes) (d : Disk)
      → (remove_all remove names d f ≡ d f) ⊎ (remove_all remove names d f ≡ false)
  unfolding remove_all
  left_or_gone [] d = inl refl
  left_or_gone (name ∷ names) d = elim (left_or_gone names (remove name d)) [
    | inr e ↦ inr e
    | inl e ↦ elim (one_step name d) [ inl k ↦ inl (e ∙ k) | inr k ↦ inr (e ∙ k) ]
  ]

  pub not_named :
      (names : List Bytes) (d : Disk) → among f names ≡ false → remove_all remove names d f ≡ d f
  unfolding remove_all
  not_named [] d e = refl
  not_named (name ∷ names) d e = elim (Bool-cases (same_bytes f name)) [
    | inl k ↦ (let z = rw (k, if◌then◌else◌) at e in absurd (cc))
    | inr k ↦ not_named names (remove name d) (rw (k, if◌then◌else◌) at e) ∙ h.others f name d k
  ]

  pub named_file :
      (names : List Bytes) (d : Disk)
      → is_file f ≡ true
      → among f names ≡ true
      → remove_all remove names d f ≡ false
  unfolding remove_all
  named_file [] d k e = cc
  named_file (name ∷ names) d k e = elim (Bool-cases (same_bytes f name)) [
    | inl s ↦
        let gone = subst (λ g. remove g d f ≡ false) (same_bytes_eq f name s) (h.file f d k) in
        elim (left_or_gone names (remove name d)) [ inl p ↦ p ∙ gone | inr p ↦ p ]
    | inr s ↦ named_file names (remove name d) k (rw (s, if◌then◌else◌) at e)
  ]
