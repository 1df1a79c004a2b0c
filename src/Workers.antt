-- ===== src/Workers.antt =====
-- pkg/iproto/util/pool/pool.go: a pool of goroutines that run tasks. One operation on a Go channel, or a
-- part that holds the mutex, is one step; child Steps has the steps in any order. A task is a number.
-- Barrier and Wait, and with them the direct queue of a worker, are not modelled.
pub mod Steps
pub mod Bounds
pub mod Work
pub mod Refines
pub mod Closed
use activerecord.Prelude.{
  ℕ, zero, suc, ◌+◌, ◌-◌, List, [], ◌∷◌, ◌++◌, length, replicate, ◌⊎◌, inl, inr, Option, none, some,
  Bool, true, false, ◌==◌, ltb, if◌then◌else◌,
}

pub data PoolError : Type 0 where
  err_config_malformed err_config_queue_unstoppable err_unavailable err_pool_closed : PoolError

pub record Config : Type 0 where
  pub unstoppable_workers : ℕ
  pub max_workers : ℕ
  pub work_queue_size : ℕ

-- What the work queue holds: a task, or the stub of `cork`.
pub data Item : Type 0 where
  task : ℕ → Item
  stub : Item

-- A goroutine of `run`: in its main loop, or in the loop after the kill, waiting or running a task.
-- The flag tells whether it has a time to live.
pub data Worker : Type 0 where
  waiting : Bool → Worker
  running : Bool → ℕ → Worker
  leaving : Worker
  finishing : ℕ → Worker

-- Close: not called, waiting for the workers, filling the queue with this many stubs so far, emptying it
-- of so many items, done.
pub data CloseState : Type 0 where
  opened awaiting : CloseState
  corking : ℕ → CloseState
  draining : ℕ → CloseState
  closed : CloseState

-- `limit` is the capacity of the semaphore, 0 for a pool without one; `spawning` has the tasks that
-- hold a token of it and have no worker yet. `accepted` has the tasks whose Schedule returned nil,
-- `executed` those that ended.
pub record Pool : Type 0 where
  pub limit : ℕ
  pub capacity : ℕ
  pub no_cork : Bool
  pub work : List Item
  pub tokens : ℕ
  pub spawning : List ℕ
  pub workers : List Worker
  pub closing : CloseState
  pub accepted : List ℕ
  pub executed : List ℕ

unfoldable pub check_config : Config → Option PoolError
check_config c =
    if (if ltb 0 c.max_workers then ltb c.max_workers c.unstoppable_workers else false)
    then some err_config_malformed
    else if (if c.unstoppable_workers == 0 then ltb 0 c.work_queue_size else false)
    then some err_config_queue_unstoppable
    else none

unfoldable pub started_pool : Config → Bool → Pool
started_pool c no_cork = record {
  limit = c.max_workers;
  capacity = c.work_queue_size;
  no_cork = no_cork;
  work = [];
  tokens = if c.max_workers == 0 then 0 else c.unstoppable_workers;
  spawning = [];
  workers = replicate c.unstoppable_workers (waiting false);
  closing = opened;
  accepted = [];
  executed = [];
}

-- The error, or the pool with its unstoppable workers.
unfoldable pub new_pool : Config → Bool → PoolError ⊎ Pool
new_pool c no_cork = elim (check_config c) [ some e ↦ inl e | none ↦ inr (started_pool c no_cork) ]

abbrev pub is_killed : CloseState → Bool
is_killed opened = false
is_killed awaiting = true
is_killed (corking i) = true
is_killed (draining j) = true
is_killed closed = true

-- `p.work <- w` into the buffer, if there is room.
unfoldable pub queue_task : ℕ → Pool → Option Pool
queue_task t p =
    if ltb (length p.work) p.capacity
    then some (record p { work = p.work ++ (task t ∷ []); accepted = t ∷ p.accepted })
    else none

-- `p.sem <- struct{}{}`; a pool without a semaphore needs no token.
unfoldable pub acquire : ℕ → Pool → Option Pool
acquire t p =
    if p.limit == 0
    then some (record p { spawning = t ∷ p.spawning })
    else if ltb p.tokens p.limit
    then some (record p { tokens = p.tokens + 1; spawning = t ∷ p.spawning })
    else none

abbrev pub released : Pool → ℕ
released p = if p.limit == 0 then p.tokens else p.tokens - 1

-- spawn for one of the tasks that have a token; the others stay.
unfoldable pub spawn : ℕ → List ℕ → Pool → Pool × Option PoolError
spawn t others p = (
  if is_killed p.closing then record p { spawning = others; tokens = released p } else record p {
    spawning = others;
    workers = running true t ∷ p.workers;
    accepted = t ∷ p.accepted;
  },
  if is_killed p.closing then some err_pool_closed else none,
)

-- The worker that runs t next, and the one whose task has ended.
unfoldable pub start_task : Worker → ℕ → Worker
start_task (waiting ttl) t = running ttl t
start_task (running ttl u) t = running ttl u
start_task leaving t = finishing t
start_task (finishing u) t = finishing u

unfoldable pub end_task : Worker → Worker
end_task (waiting ttl) = waiting ttl
end_task (running ttl t) = waiting ttl
end_task leaving = leaving
end_task (finishing t) = leaving

abbrev pub task_of : Worker → List ℕ
task_of (waiting ttl) = []
task_of (running ttl t) = t ∷ []
task_of leaving = []
task_of (finishing t) = t ∷ []

-- A worker that waits sees the kill: it leaves its main loop, or stops at once.
unfoldable pub see_kill : List Worker → List Worker → Pool → Pool
see_kill before after p =
    if p.no_cork
    then record p { workers = before ++ after; tokens = released p }
    else record p { workers = before ++ (leaving ∷ after) }

-- onStop.
unfoldable pub stop_worker : List Worker → Pool → Pool
stop_worker others p = record p { workers = others; tokens = released p }

-- Close up to the wait for the workers.
unfoldable pub close_pool : Pool → Pool
close_pool p = if is_killed p.closing then p else record p { closing = awaiting }

-- What follows when all workers are gone: `cork`, unless it is switched off.
unfoldable pub workers_gone : Pool → Pool
workers_gone p = record p { closing = if p.no_cork then closed else corking 0 }

-- One round of the loops of `cork`: a stub goes into the queue, or, when it is full, as many items
-- are taken out of it as it can hold; with no stub in between the queue is full of stubs at the end.
unfoldable pub push_stub : ℕ → Pool → Pool
push_stub i p =
    if i == p.capacity
    then record p { closing = closed }
    else if ltb (length p.work) p.capacity
    then record p { work = p.work ++ (stub ∷ []); closing = corking (i + 1) }
    else record p { closing = draining p.capacity }

-- An item is taken out, and run if it is a task.
unfoldable pub run_item : Item → List ℕ → List ℕ
run_item (task t) executed = t ∷ executed
run_item stub executed = executed

unfoldable pub drain_item : ℕ → Item → List Item → Pool → Pool
drain_item zero x rest p = p
drain_item (suc j) x rest p = record p {
  work = rest;
  executed = run_item x p.executed;
  closing = if j == 0 then corking 0 else draining j;
}
