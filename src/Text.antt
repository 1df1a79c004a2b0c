-- ===== src/Text.antt =====
-- pkg/iproto/util/text/text.go: a text is split in two. Loops over an index are recursions on the text.
pub mod Halves
use activerecord.Prelude.{
  ℕ, List, [], ◌∷◌, ◌++◌, Option, none, some, Bool, true, false, ◌==◌, if◌then◌else◌,
}
use activerecord.Go.{Bytes}

after_left : ℕ → Bytes × Bytes → Bytes × Bytes
after_left c (left, right) = (c ∷ left, right)

-- Split2: at the first place, or all on the left.
unfoldable pub split2 : Bytes → ℕ → Bytes × Bytes
unfolding after_left
split2 [] sep = ([], [])
split2 (c ∷ s) sep = let rest = split2 s sep in if c == sep then ([], s) else after_left c rest

-- The last place, if there is one: `s[:i]` and `s[i+1:]`.
unfoldable pub at_last : Bytes → ℕ → Option (Bytes × Bytes)
unfolding after_left
at_last [] sep = none
at_last (c ∷ s) sep = elim (at_last s sep) [
  | some halves ↦ some (after_left c halves)
  | none ↦ if c == sep then some ([], s) else none
]

unfoldable pub split2_reversed : Bytes → ℕ → Bytes × Bytes
split2_reversed s sep = elim (at_last s sep) [ none ↦ (s, []) | some halves ↦ halves ]
