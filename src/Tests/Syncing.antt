-- ===== src/Tests/Syncing.antt =====
-- Task groups and throttles in concrete runs.
use activerecord.Prelude.{
  ℕ, pos, negsuc, List, [], ◌∷◌, length, none, some, Bool, true, ◌≡◌, ◌≤◌, refl,
}
use activerecord.Sync.Tasks.{
  TaskGroup, new_task_group, do_tasks, channels, at_most, started, start_tasks, start_task,
  put_task, free_slot, with_context, chained,
}
use activerecord.Sync.Tasks.Limit.{IsValid, do_tasks_lem}
use activerecord.Sync.Tasks.Steps.{at_start, after, doing, new-IsValid, running-le_limit}
use activerecord.Sync.Throttle.{successes, Spaced, successes-Spaced}

abbrev every : ℕ → Bool
every i = true

-- One of two tasks was started, with the context 0 and the channel 1.
abbrev one_task : TaskGroup
one_task = record {
  limit = 2;
  running = 1;
  pending = some 1 ∷ none ∷ [];
  cancel = some (0 ∷ []);
  execs = (0, 1) ∷ [];
  cancelled = [];
  fresh = 2;
}

one_started : do_tasks every (pos 1) (new_task_group 2) ≡ some (one_task, 1 ∷ [])
unfolding do_tasks started new_task_group at_most start_tasks start_task put_task free_slot
    with_context chained channels
one_started = refl

running-le_limit_example : (length (channels (one_task.pending)) ≡ 1) × (1 ≤ 2)
running-le_limit_example =
    running-le_limit 2 one_task (after at_start (doing every (pos 1) (1 ∷ []) one_started))

do_tasks_lem_example :
    (do_tasks every (negsuc 5) (new_task_group 2) ≡ none)
    × (r : TaskGroup × List ℕ) × (do_tasks every (pos 5) (new_task_group 2) ≡ some r)
    × IsValid (r.0)
    × (length (r.1) ≤ 2)
    × (((j : ℕ) → every j ≡ true) → length (r.1) ≡ 2)
unfolding at_most new_task_group
do_tasks_lem_example = do_tasks_lem every 5 (new_task_group 2) (new-IsValid 2)

successes-Spaced_example :
    Spaced 10 0 (successes (record { period = 10; last = 0 }) (12 ∷ 15 ∷ 11 ∷ 30 ∷ []))
successes-Spaced_example =
    successes-Spaced (record { period = 10; last = 0 }) (12 ∷ 15 ∷ 11 ∷ 30 ∷ [])
