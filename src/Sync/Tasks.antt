-- ===== src/Sync/Tasks.antt =====
-- pkg/iproto/syncutil/taskgroup.go: at most N tasks run at one time. Do, Cancel and the end of a task
-- hold the mutex, so each is one step. Channels and contexts are numbers, given in turn. The Goer is a
-- parameter: whether it starts the i-th of the tasks of a call (a nil Goer starts each). A negative N,
-- for which init panics, is not modelled.
pub mod Slots
pub mod Limit
pub mod Steps
use activerecord.Prelude.{
  ℕ, zero, suc, ℤ, pos, negsuc, ◌+◌, ◌-◌, List, [], ◌∷◌, ◌++◌, length, set, get_elem?, take,
  replicate, Option, none, some, Bool, true, false, ◌==◌, ltb, if◌then◌else◌,
}

-- `execs` has the variable `exec` of each call of Do, by the context of the call; `cancel` the contexts
-- that t.cancel cancels, in order; `cancelled` those that were cancelled, the last first.
pub record TaskGroup : Type 0 where
  pub limit : ℕ
  pub running : ℕ
  pub pending : List (Option ℕ)
  pub cancel : Option (List ℕ)
  pub execs : List (ℕ × ℕ)
  pub cancelled : List ℕ
  pub fresh : ℕ

-- The group after `init`.
unfoldable pub new_task_group : ℕ → TaskGroup
new_task_group n = record {
  limit = if n == 0 then 1 else n;
  running = 0;
  pending = replicate (if n == 0 then 1 else n) none;
  cancel = none;
  execs = [];
  cancelled = [];
  fresh = 0;
}

-- The first place with a nil channel, or the length.
unfoldable pub free_slot : List (Option ℕ) → ℕ
free_slot [] = 0
free_slot (none ∷ ps) = 0
free_slot (some k ∷ ps) = suc (free_slot ps)

-- A started task: `t.pending[j] = done`, which panics out of range (`none`), and `t.n++`.
unfoldable pub put_task : TaskGroup → Option TaskGroup
put_task t =
    if ltb (free_slot t.pending) (length t.pending)
    then some (record t {
      pending = set t.pending (free_slot t.pending) (some t.fresh);
      running = t.running + 1;
      fresh = t.fresh + 1;
    })
    else none

unfoldable pub start_task : Bool → TaskGroup → Option TaskGroup
start_task true t = put_task t
start_task false t = some (record t { fresh = t.fresh + 1 })

-- The loop of Do: `k` tasks remain, and the next of them is the i-th.
unfoldable pub start_tasks : (ℕ → Bool) → ℕ → ℕ → TaskGroup → Option TaskGroup
start_tasks goer i zero t = some t
start_tasks goer i (suc k) t = elim (start_task (goer i) t) [
  | none ↦ none
  | some t' ↦ start_tasks goer (suc i) k t'
]

unfoldable pub chained : Option (List ℕ) → ℕ → Option (List ℕ)
chained none ctx = some (ctx ∷ [])
chained (some prev) ctx = some (prev ++ (ctx ∷ []))

-- The context of a call, which makes the new t.cancel.
unfoldable pub with_context : ℕ → TaskGroup → TaskGroup
with_context exec t = record t {
  cancel = chained t.cancel t.fresh;
  execs = (t.fresh, exec) ∷ t.execs;
  fresh = t.fresh + 1;
}

unfoldable pub channels : List (Option ℕ) → List ℕ
channels [] = []
channels (none ∷ ps) = channels ps
channels (some k ∷ ps) = k ∷ channels ps

unfoldable pub at_most : ℕ → ℕ → ℕ
at_most limit n = if ltb limit n then limit else n

unfoldable pub started : (ℕ → Bool) → ℕ → TaskGroup → Option TaskGroup
started goer n t =
    if ltb t.running n
    then start_tasks goer 0 (n - t.running) (with_context (n - t.running) t)
    else some t

-- Do, with the channels that it returns; for a negative n `make([]<-chan error, 0, n)` panics (`none`).
unfoldable pub do_tasks : (ℕ → Bool) → ℤ → TaskGroup → Option (TaskGroup × List ℕ)
do_tasks goer (negsuc k) t = none
do_tasks goer (pos n) t = elim (started goer (at_most t.limit n) t) [
  | none ↦ none
  | some t' ↦ some (t', take (at_most t.limit n) (channels t'.pending))
]

-- `exec--`, and whether it is 0 then.
unfoldable pub count_down : ℕ → List (ℕ × ℕ) → List (ℕ × ℕ)
count_down ctx [] = []
count_down ctx ((c, e) ∷ m) =
    let rest = count_down ctx m in if c == ctx then (c, e - 1) ∷ m else (c, e) ∷ rest

unfoldable pub is_last : ℕ → List (ℕ × ℕ) → Bool
is_last ctx [] = false
is_last ctx ((c, e) ∷ m) = let rest = is_last ctx m in if c == ctx then e == 1 else rest

unfoldable pub ended : ℕ → TaskGroup → TaskGroup
ended ctx t = record t {
  execs = count_down ctx t.execs;
  cancelled = if is_last ctx t.execs then ctx ∷ t.cancelled else t.cancelled;
}

-- `t.pending[j] = nil`, `t.n--`, and t.cancel is dropped with the last task.
unfoldable pub release : ℕ → TaskGroup → TaskGroup
release j t = record t {
  pending = set t.pending j none;
  running = t.running - 1;
  cancel = if t.running - 1 == 0 then none else t.cancel;
}

unfoldable pub holds : Option (Option ℕ) → ℕ → Bool
holds none k = false
holds (some none) k = false
holds (some (some l)) k = l == k

-- The end of the task with the context `ctx` and the channel k, for the place j.
unfoldable pub finish_task : ℕ → ℕ → ℕ → TaskGroup → TaskGroup
finish_task ctx j k t =
    if holds (get_elem? t.pending j) k then release j (ended ctx t) else ended ctx t

unfoldable pub all_contexts : Option (List ℕ) → List ℕ → List ℕ
all_contexts none log = log
all_contexts (some []) log = log
all_contexts (some (c ∷ cs)) log = all_contexts (some cs) (c ∷ log)

unfoldable pub cancel_tasks : TaskGroup → TaskGroup
cancel_tasks t = record t {
  cancelled = all_contexts t.cancel t.cancelled;
  cancel = none;
  pending = replicate (length t.pending) none;
  running = 0;
}
