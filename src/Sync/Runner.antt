-- ===== src/Sync/Runner.antt =====
-- pkg/iproto/syncutil/taskrunner.go: one task at a time, whose result every caller gets. The part of Do
-- and of broadcastErr that holds the mutex is one step, and so is one send to a channel; child Steps
-- has the steps in any order. A task, and the channel of a call of Do, is a number.
pub mod Steps
pub mod Results
use activerecord.Prelude.{
  ℕ, suc, ◌==◌, List, [], ◌∷◌, ◌++◌, map, Option, none, some, Bool, if◌then◌else◌,
}

pub data TaskError : Type 0 where
  err_task_panic : TaskError
  task_failed : ℕ → TaskError

-- How a task ends: it returns nil or an error, or it panics.
pub data TaskEnd : Type 0 where
  returned : Option TaskError → TaskEnd
  panicked : TaskEnd

-- `rcvrs` is none for nil. `running` has the tasks that have not ended, `sending` what broadcastErr has
-- yet to send, `results` what was sent; `cancel` is the task whose context it cancels, `canceled` has
-- the tasks whose context is canceled.
pub record TaskRunner : Type 0 where
  pub rcvrs : Option (List ℕ)
  pub cancel : Option ℕ
  pub calls : ℕ
  pub tasks : ℕ
  pub running : List ℕ
  pub sending : List (ℕ × Option TaskError)
  pub results : List (ℕ × Option TaskError)
  pub canceled : List ℕ

unfoldable pub new_runner : TaskRunner
new_runner = record {
  rcvrs = none;
  cancel = none;
  calls = 0;
  tasks = 0;
  running = [];
  sending = [];
  results = [];
  canceled = [];
}

unfoldable pub init_task : TaskRunner → TaskRunner
init_task t = record t { cancel = some t.tasks; tasks = suc t.tasks; running = t.tasks ∷ t.running }

abbrev pub receivers : Option (List ℕ) → List ℕ
receivers none = []
receivers (some xs) = xs

unfoldable pub subscribe : TaskRunner → TaskRunner
subscribe t = record t { rcvrs = some (receivers t.rcvrs ++ (t.calls ∷ [])); calls = suc t.calls }

-- Do, which returns the channel `t.calls`.
unfoldable pub do_task : TaskRunner → TaskRunner
do_task t = elim (t.rcvrs) [ none ↦ subscribe (init_task t) | some xs ↦ subscribe t ]

unfoldable pub cancel_task : TaskRunner → TaskRunner
cancel_task t = elim (t.cancel) [ none ↦ t | some k ↦ record t { canceled = k ∷ t.canceled } ]

-- broadcastErr up to its loop.
unfoldable pub broadcast_err : Option TaskError → TaskRunner → TaskRunner
broadcast_err e t = record t {
  rcvrs = none;
  sending = map (λ r. (r, e)) (receivers t.rcvrs) ++ t.sending;
}

unfoldable pub result_of : TaskEnd → Option TaskError
result_of (returned e) = e
result_of panicked = some err_task_panic

-- A task ends, behind `before` and in front of `after`; makeRecover broadcasts for one that panics.
unfoldable pub end_of_task : List ℕ → List ℕ → TaskEnd → TaskRunner → TaskRunner
end_of_task before after e t = broadcast_err (result_of e) (record t { running = before ++ after })
