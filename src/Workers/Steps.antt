-- ===== src/Workers/Steps.antt =====
-- The steps of a pool, in any order.
use activerecord.Prelude.{ℕ, List, [], ◌∷◌, ◌++◌, some, Bool, true, ◌≡◌}
use activerecord.Workers.{
  Item, task, Worker, waiting, leaving, awaiting, corking, draining, Pool, is_killed, queue_task,
  acquire, spawn, start_task, end_task, task_of, see_kill, stop_worker, close_pool, workers_gone,
  push_stub, drain_item,
}

pub data Move : Pool → Pool → Type 0 where
  queueing : {p q : Pool} (t : ℕ) → queue_task t p ≡ some q → Move p q
  -- The task goes to a worker that receives.
  handing :
      {p : Pool} (t : ℕ) (before after : List Worker) (w : Worker)
      → p.workers ≡ before ++ (w ∷ after)
      → task_of w ≡ []
      → p.work ≡ []
      → Move p
          (record p { workers = before ++ (start_task w t ∷ after); accepted = t ∷ p.accepted })
  acquiring : {p q : Pool} (t : ℕ) → acquire t p ≡ some q → Move p q
  spawning_one :
      {p : Pool} (t : ℕ) (before after : List ℕ)
      → p.spawning ≡ before ++ (t ∷ after)
      → Move p (spawn t (before ++ after) p).0
  taking :
      {p : Pool} (t : ℕ) (rest : List Item) (before after : List Worker) (w : Worker)
      → p.workers ≡ before ++ (w ∷ after)
      → task_of w ≡ []
      → p.work ≡ task t ∷ rest
      → Move p (record p { work = rest; workers = before ++ (start_task w t ∷ after) })
  ending :
      {p : Pool} (t : ℕ) (before after : List Worker) (w : Worker)
      → p.workers ≡ before ++ (w ∷ after)
      → task_of w ≡ t ∷ []
      → Move p (record p { workers = before ++ (end_task w ∷ after); executed = t ∷ p.executed })
  expiring :
      {p : Pool} (before after : List Worker)
      → p.workers ≡ before ++ (waiting true ∷ after)
      → Move p (stop_worker (before ++ after) p)
  seeing_kill :
      {p : Pool} (ttl : Bool) (before after : List Worker)
      → p.workers ≡ before ++ (waiting ttl ∷ after)
      → is_killed p.closing ≡ true
      → Move p (see_kill before after p)
  leaving_one :
      {p : Pool} (before after : List Worker)
      → p.workers ≡ before ++ (leaving ∷ after)
      → p.work ≡ []
      → Move p (stop_worker (before ++ after) p)
  closing_pool : {p : Pool} → Move p (close_pool p)
  waited : {p : Pool} → p.closing ≡ awaiting → p.workers ≡ [] → Move p (workers_gone p)
  pushing : {p : Pool} (i : ℕ) → p.closing ≡ corking i → Move p (push_stub i p)
  emptying :
      {p : Pool} (j : ℕ) (x : Item) (rest : List Item)
      → p.closing ≡ draining j
      → p.work ≡ x ∷ rest
      → Move p (drain_item j x rest p)

pub data Reached (start : Pool) : Pool → Type 0 where
  at_start : Reached start start
  and_then : {p q : Pool} → Reached start p → Move p q → Reached start q
