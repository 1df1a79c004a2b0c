-- ===== src/Prelude/Encoded.antt =====
-- Lists of elements that are written one after the other.
use Prim.Native.Nat.{ℕ, ◌≤◌}
use mathlib.Core.Path.{◌≡◌, sym, ◌∙◌}
use mathlib.Core.List.{List, [], ◌∷◌, ◌++◌, foldl, flat_map, append-nil, append_assoc}
use native.Mathlib.Omega.{arith}
use activerecord.Prelude.Lists.{length, length-append, All}

module _ {ℓ κ} {A : Type ℓ} {B : Type κ} where
  -- A loop over a function that appends.
  pub foldl-flat_map :
      (f : List B → A → List B) (enc : A → List B)
      → ((w : List B) (x : A) → f w x ≡ w ++ enc x)
      → (w : List B) (xs : List A) → foldl f w xs ≡ w ++ flat_map enc xs
  unfolding flat_map
  foldl-flat_map f enc h w [] = sym (append-nil w)
  foldl-flat_map f enc h w (x ∷ xs) =
      foldl-flat_map f enc h (f w x) xs ∙ rw (h w x) (append_assoc w (enc x) (flat_map enc xs))

  -- What holds of an element with a short encoding holds of each element of a short list.
  pub flat_map-All {μ} :
      (enc : A → List B) (P : A → Type μ) (k : ℕ)
      → ((x : A) → length (enc x) ≤ k → P x)
      → (xs : List A) → length (flat_map enc xs) ≤ k
      → All P xs
  unfolding flat_map
  flat_map-All enc P k h [] b = tt
  flat_map-All enc P k h (x ∷ xs) b =
      let e = length-append (enc x) (flat_map enc xs) in
      (h x (omega (arith, e)), flat_map-All enc P k h xs (omega (arith, e)))

  pub length-flat_map-ge :
      (enc : A → List B)
      → ((x : A) → 1 ≤ length (enc x))
      → (xs : List A) → length xs ≤ length (flat_map enc xs)
  unfolding flat_map
  length-flat_map-ge enc h [] = omega arith
  length-flat_map-ge enc h (x ∷ xs) =
      omega (arith, h x, length-append (enc x) (flat_map enc xs), length-flat_map-ge enc h xs)
