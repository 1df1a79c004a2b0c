-- ===== src/Package/Procedures.antt =====
-- internal/pkg/ds/app.go: the output parameters of a procedure, a map from their order indexes, as a
-- list of entries in the order in which Go runs through them; the built-in mutators.
use activerecord.Prelude.{
  ℕ, List, [], ◌∷◌, length, set, replicate, Bool, true, ltb, if◌then◌else◌, ℤ, pos, negsuc,
}
use activerecord.Go.{Result, ok, panic, Bytes, ◌>>=◌}
use activerecord.Go.Strings.{codes, is_empty}
use activerecord.Package.Records.{ProcFieldDeclaration, untyped}

abbrev pub zero_param : ProcFieldDeclaration
zero_param = record {
  name = [];
  format = [];
  parameter_type = untyped;
  size = pos 0;
  serializer = [];
  order_index = pos 0;
}

-- `out[i] = pfd[i]` panics out of range.
unfoldable pub write_param :
    {E : Type 0}
    → List ProcFieldDeclaration
    → ℤ × ProcFieldDeclaration
    → Result E (List ProcFieldDeclaration)
write_param out (pos i, f) = if ltb i (length out) then ok (set out i f) else panic
write_param out (negsuc i, f) = panic

unfoldable pub write_params :
    {E : Type 0}
    → List ProcFieldDeclaration
    → List (ℤ × ProcFieldDeclaration)
    → Result E (List ProcFieldDeclaration)
write_params out [] = ok out
write_params out (p ∷ ps) = do out' ← write_param out p; write_params out' ps

unfoldable pub list_params :
    {E : Type 0} → List (ℤ × ProcFieldDeclaration) → Result E (List ProcFieldDeclaration)
list_params m = write_params (replicate (length m) zero_param) m

-- `maxIdx` starts at 0, so that a negative index never takes its place.
unfoldable pub max_index : ℕ → List (ℤ × ProcFieldDeclaration) → ℕ
max_index n [] = n
max_index n ((pos i, f) ∷ m) = max_index (if ltb n i then i else n) m
max_index n ((negsuc i, f) ∷ m) = max_index n m

unfoldable pub validate : List (ℤ × ProcFieldDeclaration) → Bool
validate m = if is_empty m then true else ltb (max_index 0 m) (length m)

abbrev pub set_bit_mutator : Bytes
set_bit_mutator = codes "set_bit"

abbrev pub clear_bit_mutator : Bytes
clear_bit_mutator = codes "clear_bit"

abbrev pub field_mutators : List Bytes
field_mutators =
    codes "inc"
    ∷ codes "dec"
    ∷ set_bit_mutator
    ∷ clear_bit_mutator
    ∷ codes "and"
    ∷ codes "or"
    ∷ codes "xor"
    ∷ []
