-- ===== src/Tests/Running.antt =====
-- A task runner in a concrete run.
use activerecord.Prelude.{◌+◌, [], ◌∷◌, length, some, ltb, if◌then◌else◌, ◌≡◌, refl, times}
use activerecord.Sync.Runner.{
  TaskRunner, receivers, new_runner, do_task, subscribe, init_task, end_of_task, broadcast_err,
  result_of, panicked, err_task_panic,
}
use activerecord.Sync.Runner.Steps.{Reached, at_start, and_then, doing, ending, sending_one}
use activerecord.Sync.Runner.Results.{ids, busy, one_result}

-- Two calls join a task, the task panics, the first of them is told, a third call starts a task.
abbrev two_wait : TaskRunner
two_wait = do_task (do_task new_runner)

abbrev panic_sent : TaskRunner
panic_sent = record (end_of_task [] [] panicked two_wait) {
  sending = (1, some err_task_panic) ∷ [];
  results = (0, some err_task_panic) ∷ [];
}

told_one : Reached panic_sent
unfolding new_runner do_task subscribe init_task end_of_task broadcast_err result_of
told_one =
    and_then (and_then (and_then (and_then at_start doing) doing) (ending [] [] 0 panicked refl))
      (sending_one [] ((1, some err_task_panic) ∷ []) (0, some err_task_panic) refl)

abbrev third_waits : TaskRunner
third_waits = do_task panic_sent

one_result_example :
    (length third_waits.running ≡ busy third_waits.rcvrs)
    × (times 1 (receivers third_waits.rcvrs)
          + (times 1 (ids third_waits.sending) + times 1 (ids third_waits.results))
        ≡ (if ltb 1 third_waits.calls then 1 else 0))
one_result_example = one_result 1 (and_then told_one doing)
