-- ===== src/Sync/Runner/Steps.antt =====
-- The steps of a task runner, in any order.
use activerecord.Prelude.{ℕ, List, ◌∷◌, ◌++◌, Option, ◌≡◌}
use activerecord.Sync.Runner.{
  TaskError, TaskEnd, TaskRunner, new_runner, do_task, cancel_task, end_of_task,
}

pub data Move : TaskRunner → TaskRunner → Type 0 where
  doing : {t : TaskRunner} → Move t (do_task t)
  cancelling : {t : TaskRunner} → Move t (cancel_task t)
  ending :
      {t : TaskRunner} (before after : List ℕ) (k : ℕ) (e : TaskEnd)
      → t.running ≡ before ++ (k ∷ after)
      → Move t (end_of_task before after e t)
  sending_one :
      {t : TaskRunner} (before after : List (ℕ × Option TaskError)) (r : ℕ × Option TaskError)
      → t.sending ≡ before ++ (r ∷ after)
      → Move t (record t { sending = before ++ after; results = r ∷ t.results })
  -- The context of a task is canceled, by the deferred call of its goroutine or from outside.
  leaving : {t : TaskRunner} (k : ℕ) → Move t (record t { canceled = k ∷ t.canceled })

-- The states that the steps lead to.
pub data Reached : TaskRunner → Type 0 where
  at_start : Reached new_runner
  and_then : {t u : TaskRunner} → Reached t → Move t u → Reached u
