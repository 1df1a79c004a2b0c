-- ===== src/Sync/Tasks/Slots.antt =====
-- The places for channels, counted.
use activerecord.Prelude.{
  ℕ, zero, suc, ◌≤◌, ◌<◌, List, [], ◌∷◌, length, set, get_elem?, replicate, Option, none, some, ◌≡◌,
  refl, ap, arith,
}
use activerecord.Sync.Tasks.{free_slot, channels}

pub count : List (Option ℕ) → ℕ
count [] = 0
count (none ∷ ps) = count ps
count (some k ∷ ps) = suc (count ps)

pub count-le : (ps : List (Option ℕ)) → count ps ≤ length ps
unfolding count
count-le [] = omega arith
count-le (none ∷ ps) = omega (arith, count-le ps)
count-le (some k ∷ ps) = omega (arith, count-le ps)

pub free_slot-lt : (ps : List (Option ℕ)) → count ps < length ps → free_slot ps < length ps
unfolding count free_slot
free_slot-lt [] h = h
free_slot-lt (none ∷ ps) h = omega arith
free_slot-lt (some k ∷ ps) h = omega (arith, free_slot-lt ps (omega (arith, h)))

pub count-set_free :
    (ps : List (Option ℕ)) (k : ℕ)
    → free_slot ps < length ps
    → count (set ps (free_slot ps) (some k)) ≡ suc (count ps)
unfolding count free_slot
count-set_free [] k h = absurd (omega (arith, h))
count-set_free (none ∷ ps) k h = refl
count-set_free (some l ∷ ps) k h = ap suc (count-set_free ps k (omega (arith, h)))

pub count-release :
    (ps : List (Option ℕ)) (j k : ℕ)
    → get_elem? ps j ≡ some (some k)
    → suc (count (set ps j none)) ≡ count ps
unfolding count
count-release [] j k h = cc
count-release (none ∷ ps) zero k h = cc
count-release (some l ∷ ps) zero k h = refl
count-release (none ∷ ps) (suc j) k h = count-release ps j k h
count-release (some l ∷ ps) (suc j) k h = ap suc (count-release ps j k h)

pub count-replicate : (n : ℕ) → count (replicate n none) ≡ 0
unfolding count
count-replicate zero = refl
count-replicate (suc n) = count-replicate n

pub length-channels : (ps : List (Option ℕ)) → length (channels ps) ≡ count ps
unfolding count channels
length-channels [] = refl
length-channels (none ∷ ps) = length-channels ps
length-channels (some k ∷ ps) = ap suc (length-channels ps)
