-- ===== src/Go/Strings.antt =====
-- Strings of Go: the test whether two are equal, maps with such keys as lists of entries in which a
-- later assignment stands first, and the functions of the package strings that are used.
use Prim.Native.Char.{code}
use Prim.Native.String.{String}
use activerecord.Prelude.{
  ℕ, List, [], ◌∷◌, Option, none, some, Bool, true, false, ◌==◌, if◌then◌else◌, ◌≡◌, refl, arith,
}
use activerecord.Go.{Bytes}

-- The bytes of a text in ASCII.
abbrev pub codes : String → Bytes
codes String.[] = []
codes (String.◌∷◌ c s) = code c ∷ codes s

abbrev pub same_bytes : Bytes → Bytes → Bool
same_bytes [] [] = true
same_bytes [] (b ∷ bs) = false
same_bytes (a ∷ as_bytes) [] = false
same_bytes (a ∷ as_bytes) (b ∷ bs) =
    let rest = same_bytes as_bytes bs in if a == b then rest else false

pub same_bytes_refl : (bs : Bytes) → same_bytes bs bs ≡ true
same_bytes_refl [] = refl
same_bytes_refl (b ∷ bs) = ground (arith, same_bytes_refl bs)

pub same_bytes_eq : (as_bytes bs : Bytes) → same_bytes as_bytes bs ≡ true → as_bytes ≡ bs
same_bytes_eq [] [] h = refl
same_bytes_eq [] (b ∷ bs) h = cc
same_bytes_eq (a ∷ as_bytes) [] h = cc
same_bytes_eq (a ∷ as_bytes) (b ∷ bs) h = ground (arith, same_bytes_eq as_bytes bs)

abbrev pub entry : {A : Type 0} → Bytes → List (Bytes × A) → Option A
entry k [] = none
entry k ((j, a) ∷ m) = let rest = entry k m in if same_bytes j k then some a else rest

-- `_, ex := m[k]`
abbrev pub has_entry : {A : Type 0} → Bytes → List (Bytes × A) → Bool
has_entry k [] = false
has_entry k ((j, a) ∷ m) = let rest = has_entry k m in if same_bytes j k then true else rest

abbrev pub among : Bytes → List Bytes → Bool
among s [] = false
among s (t ∷ ts) = let rest = among s ts in if same_bytes s t then true else rest

abbrev pub is_empty : {A : Type 0} → List A → Bool
is_empty [] = true
is_empty (x ∷ xs) = false

-- `strings.Split(s, string(c))`
unfoldable pub join_first : ℕ → List Bytes → List Bytes
join_first c [] = (c ∷ []) ∷ []
join_first c (part ∷ parts) = (c ∷ part) ∷ parts

unfoldable pub split_on : ℕ → Bytes → List Bytes
unfolding join_first
split_on sep [] = [] ∷ []
split_on sep (c ∷ cs) =
    let rest = split_on sep cs in if c == sep then [] ∷ rest else join_first c rest

-- `strings.SplitN(s, string(c), 2)`: what stands before the first c, and behind it.
cut_first : ℕ → Bytes × Option Bytes → Bytes × Option Bytes
cut_first c (left, right) = (c ∷ left, right)

unfoldable pub cut : ℕ → Bytes → Bytes × Option Bytes
unfolding cut_first
cut sep [] = ([], none)
cut sep (c ∷ cs) = let rest = cut sep cs in if c == sep then ([], some cs) else cut_first c rest

-- What is left behind a prefix, if it stands there.
unfoldable pub strip_prefix : Bytes → Bytes → Option Bytes
strip_prefix [] s = some s
strip_prefix (p ∷ ps) [] = none
strip_prefix (p ∷ ps) (c ∷ cs) = let rest = strip_prefix ps cs in if p == c then rest else none

-- `strings.Trim(s, string(c))`
unfoldable pub trim_left : ℕ → Bytes → Bytes
trim_left sep [] = []
trim_left sep (c ∷ cs) = let rest = trim_left sep cs in if c == sep then rest else c ∷ cs

trim_right_step : ℕ → ℕ → Bytes → Bytes
trim_right_step sep c [] = if c == sep then [] else c ∷ []
trim_right_step sep c (d ∷ ds) = c ∷ d ∷ ds

unfoldable pub trim_right : ℕ → Bytes → Bytes
unfolding trim_right_step
trim_right sep [] = []
trim_right sep (c ∷ cs) = trim_right_step sep c (trim_right sep cs)

unfoldable pub trim : ℕ → Bytes → Bytes
unfolding trim_left trim_right
trim sep s = trim_right sep (trim_left sep s)

trimmed : trim b'"' (codes "\"size:5;unique\"") ≡ codes "size:5;unique"
unfolding trim
trimmed = refl

cut_at_colon : cut b':' (codes "size:5") ≡ (codes "size", some (codes "5"))
unfolding cut
cut_at_colon = refl
