-- ===== src/Sync/Multitask/Steps.antt =====
-- The steps of a run of n actors, in any order.
use activerecord.Prelude.{ℕ, List, ◌∷◌, ◌++◌, Option, Bool, true, ◌≡◌}
use activerecord.Sync.Multitask.{
  Multitask, starting, waiting, new_multitask, next_round, end_actor, return_from_do,
}

pub data Move : Multitask → Multitask → Type 0 where
  round :
      {m : Multitask} (r : Option ℕ) (i : ℕ) → m.progress ≡ starting i → Move m (next_round r i m)
  ending :
      {m : Multitask} (before : List ℕ) (i : ℕ) (after : List ℕ) (ok : Bool)
      → m.running ≡ before ++ (i ∷ after)
      → Move m (end_actor before i after ok m)
  returning : {m : Multitask} → m.progress ≡ waiting → Move m (return_from_do m)
  -- The context of the caller is canceled.
  canceling : {m : Multitask} → Move m (record m { canceled = true })

-- The states that the steps lead to.
pub data Reached (b : Bool) (n : ℕ) : Multitask → Type 0 where
  at_start : Reached b n (new_multitask b n)
  and_then : {m o : Multitask} → Reached b n m → Move m o → Reached b n o
