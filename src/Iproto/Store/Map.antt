-- ===== src/Iproto/Store/Map.antt =====
-- The entries as a map.
use activerecord.Prelude.{
  ℕ, suc, ◌≤◌, ◌<◌, List, [], ◌∷◌, length, none, some, ◌==◌, if◌then◌else◌, ◌≡◌, refl, arith,
  Bool-cases, inl, inr,
}
use activerecord.Iproto.Store.{lookup, delete}

module _ {C : Type 0} where
  pub lookup-delete :
      (k j : ℕ) (m : List (ℕ × C)) → lookup j (delete k m) ≡ (if k == j then none else lookup j m)
  unfolding lookup delete
  lookup-delete k j [] = ground arith
  lookup-delete k j ((i, cb) ∷ m) = ground (arith, lookup-delete k j m)

  pub length-delete-le : (k : ℕ) (m : List (ℕ × C)) → length (delete k m) ≤ length m
  unfolding delete
  length-delete-le k [] = omega arith
  length-delete-le k ((i, cb) ∷ m) = ground (arith, length-delete-le k m)

  pub length-delete-lt :
      (k : ℕ) (m : List (ℕ × C)) (cb : C) → lookup k m ≡ some cb → length (delete k m) < length m
  unfolding delete lookup
  length-delete-lt k [] cb h = absurd (cc)
  length-delete-lt k ((i, c) ∷ m) cb h =
      ground (arith, length-delete-le k m, length-delete-lt k m cb)

  -- Deleting a key that is not there changes nothing.
  pub delete_absent : (k : ℕ) (m : List (ℕ × C)) → lookup k m ≡ none → delete k m ≡ m
  unfolding delete lookup
  delete_absent k [] h = refl
  delete_absent k ((i, c) ∷ m) h = ground (arith, delete_absent k m)

  -- Each key stands once.
  abbrev pub Distinct : List (ℕ × C) → Type 0
  Distinct [] = Unit {0}
  Distinct ((k, c) ∷ m) = (lookup k m ≡ none) × Distinct m

  pub delete-Distinct : (k : ℕ) (m : List (ℕ × C)) → Distinct m → Distinct (delete k m)
  unfolding delete
  delete-Distinct k [] h = tt
  delete-Distinct k ((i, c) ∷ m) h = elim (Bool-cases (i == k)) [
    | inl e ↦ rw (e, if◌then◌else◌) (delete-Distinct k m h.1)
    | inr e ↦ rw (e, if◌then◌else◌) (ground (arith, lookup-delete k i m), delete-Distinct k m h.1)
  ]

  -- In a map with distinct keys one entry goes.
  pub length-delete :
      (k : ℕ) (m : List (ℕ × C)) (cb : C)
      → Distinct m
      → lookup k m ≡ some cb
      → suc (length (delete k m)) ≡ length m
  unfolding delete lookup
  length-delete k [] cb h e = absurd (cc)
  length-delete k ((i, c) ∷ m) cb h e = ground (arith, length-delete k m cb h.1, delete_absent k m)
