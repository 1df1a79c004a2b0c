-- ===== src/Parser/Links/Flags.antt =====
-- The mutators that a field with flags gets.
use activerecord.Prelude.{
  List, [], ◌∷◌, ◌++◌, Bool, true, false, not, ◌||◌, inl, inr, Bool-cases, ◌≡◌, refl, arith, ◌∙◌,
}
use activerecord.Go.{Bytes}
use activerecord.Go.Strings.{among}
use activerecord.Package.Procedures.{set_bit_mutator, clear_bit_mutator}
use activerecord.Parser.Links.{flag_mutators}

among-append : (s : Bytes) (xs ys : List Bytes) → among s (xs ++ ys) ≡ (among s xs || among s ys)
among-append s [] ys = refl
among-append s (x ∷ xs) ys = ground (arith, among-append s xs ys)

or_false : (b : Bool) → (b || false) ≡ b
or_false true = refl
or_false false = refl

or_true : (b : Bool) → (b || true) ≡ true
or_true true = refl
or_true false = refl

-- A field with flags can set bits afterwards, and keeps its mutators in their order. It can clear bits
-- unless it could set them before and could not clear them: then the mutator clear_bit is missing.
pub flag_mutators_lem :
    (ms : List Bytes)
    → (among set_bit_mutator (flag_mutators ms) ≡ true)
      × (among clear_bit_mutator (flag_mutators ms)
          ≡ (not (among set_bit_mutator ms) || among clear_bit_mutator ms))
      × ((added : List Bytes) × (flag_mutators ms ≡ ms ++ added))
unfolding flag_mutators
flag_mutators_lem ms = elim (Bool-cases (among set_bit_mutator ms)) [
  | inl e ↦ (
    among-append set_bit_mutator ms _ ∙ rw e refl,
    among-append clear_bit_mutator ms _ ∙ rw e (or_false _),
    (_, refl),
  )
  | inr e ↦ (
    among-append set_bit_mutator ms _ ∙ rw e refl,
    among-append clear_bit_mutator ms _ ∙ rw e (or_true _),
    (_, refl),
  )
]
