-- ===== src/Tests/Acting.antt =====
-- A run of actors that the Goer cuts short.
use activerecord.Prelude.{ℕ, ◌⊎◌, true, false, none, some, [], ◌∷◌, length, ◌≡◌, refl}
use activerecord.Sync.Multitask.{
  Multitask, returned, new_multitask, next_round, start_actor, end_actor, return_from_do,
}
use activerecord.Sync.Multitask.Steps.{Reached, at_start, and_then, round, ending, returning}
use activerecord.Sync.Multitask.Waits.{do_waits}

-- Of two actors the first is started and the Goer refuses the second; the first ends.
abbrev one_refused : Multitask
one_refused = record (new_multitask false 2) {
  progress = returned;
  wg = 0;
  ended = 0 ∷ [];
  canceled = true;
  error = some 7;
}

returned_refused : Reached false 2 one_refused
unfolding new_multitask next_round start_actor end_actor return_from_do
returned_refused =
    and_then
      (and_then (and_then (and_then at_start (round none 0 refl)) (round (some 7) 1 refl))
        (ending [] 0 [] true refl))
      (returning refl)

do_waits_example :
    (length one_refused.running ≡ 0)
    × ((length one_refused.ended ≡ 2) ⊎ ((e : ℕ) × (one_refused.error ≡ some e)))
do_waits_example = do_waits returned_refused refl
