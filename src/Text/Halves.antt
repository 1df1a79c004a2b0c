-- ===== src/Text/Halves.antt =====
-- What the two halves of a text are.
use activerecord.Prelude.{
  ℕ, [], ◌∷◌, ◌++◌, none, some, false, ◌==◌, ==_iff, All, ◌≡◌, ◌≢◌, refl, arith,
}
use activerecord.Go.{Bytes}
use activerecord.Text.{split2, at_last, split2_reversed}

abbrev pub Without : ℕ → Bytes → Type 0
Without sep s = All (λ c. c ≢ sep) s

not_same : (c sep : ℕ) → c ≢ sep → (c == sep) ≡ false
not_same c sep h = ground (arith, h)

-- A text in two parts with a separator between them is split there: at the first one if the left part
-- has none.
pub split2-append :
    (left right : Bytes) (sep : ℕ)
    → Without sep left
    → split2 (left ++ (sep ∷ right)) sep ≡ (left, right)
unfolding split2
split2-append [] right sep h = rw ((==_iff sep sep).1 refl) refl
split2-append (c ∷ left) right sep h =
    rw (not_same c sep h.0) (rw (split2-append left right sep h.1) refl)

none-Without : (s : Bytes) (sep : ℕ) → Without sep s → at_last s sep ≡ none
unfolding at_last
none-Without [] sep h = refl
none-Without (c ∷ s) sep h = rw (none-Without s sep h.1, at_last) (rw (not_same c sep h.0) refl)

at_last-append :
    (left right : Bytes) (sep : ℕ)
    → Without sep right
    → at_last (left ++ (sep ∷ right)) sep ≡ some (left, right)
unfolding at_last
at_last-append [] right sep h =
    rw (none-Without right sep h, at_last) (rw ((==_iff sep sep).1 refl) refl)
at_last-append (c ∷ left) right sep h = rw (at_last-append left right sep h, at_last) refl

-- From the other end: at the last one if the right part has none.
pub split2_reversed-append :
    (left right : Bytes) (sep : ℕ)
    → Without sep right
    → split2_reversed (left ++ (sep ∷ right)) sep ≡ (left, right)
unfolding split2_reversed
split2_reversed-append left right sep h = rw (at_last-append left right sep h, split2_reversed) refl
