-- ===== src/Tests/Working.antt =====
-- A pool of workers in a concrete run.
use activerecord.Prelude.{ℕ, ◌+◌, ◌≤◌, [], ◌∷◌, length, none, false, ◌≡◌, refl, arith, inr, times}
use activerecord.Workers.{
  Config, Pool, task, stub, waiting, running, opened, closed, new_pool, started_pool, check_config,
  queue_task, see_kill, stop_worker, close_pool, workers_gone, push_stub, start_task, end_task,
}
use activerecord.Workers.Steps.{
  Reached, Move, at_start, and_then, queueing, taking, ending, closing_pool, seeing_kill,
  leaving_one, waited, pushing,
}
use activerecord.Workers.Bounds.{workers-le_max}
use activerecord.Workers.Refines.{BagMove, bag_of, pool_refines_bag}
use activerecord.Workers.Closed.{closed_lem}

abbrev one_worker : Config
one_worker = record { unstoppable_workers = 1; max_workers = 2; work_queue_size = 1 }

abbrev start_pool : Pool
start_pool = started_pool one_worker false

started : new_pool one_worker false ≡ inr start_pool
unfolding new_pool check_config
started = refl

abbrev with_task : Pool
with_task = record {
  limit = 2;
  capacity = 1;
  no_cork = false;
  work = task 5 ∷ [];
  tokens = 1;
  spawning = [];
  workers = waiting false ∷ [];
  closing = opened;
  accepted = 5 ∷ [];
  executed = [];
}

queued_one : Reached start_pool with_task
unfolding started_pool queue_task
queued_one = and_then at_start (queueing 5 refl)

abbrev busy : Pool
busy = record with_task { work = []; workers = running false 5 ∷ [] }

taken_one : Move with_task busy
unfolding start_task
taken_one = taking 5 [] [] [] (waiting false) refl refl refl

workers-le_max_example : length busy.workers + length busy.spawning ≤ one_worker.max_workers
workers-le_max_example =
    workers-le_max one_worker false start_pool busy started (and_then queued_one taken_one)
      (omega arith)

pool_refines_bag_example : BagMove (bag_of with_task) (bag_of busy)
pool_refines_bag_example =
    pool_refines_bag one_worker false start_pool with_task busy started queued_one taken_one

abbrev at_end : Pool
at_end = record with_task {
  work = stub ∷ [];
  tokens = 0;
  workers = [];
  closing = closed;
  executed = 5 ∷ [];
}

ended_all : Reached start_pool at_end
unfolding end_task close_pool see_kill stop_worker workers_gone push_stub
ended_all =
    and_then
      (and_then
        (and_then
          (and_then
            (and_then
              (and_then
                (and_then (and_then queued_one taken_one)
                  (ending 5 [] [] (running false 5) refl refl))
                closing_pool)
              (seeing_kill false [] [] refl refl))
            (leaving_one [] [] refl refl))
          (waited refl refl))
        (pushing 0 refl))
      (pushing 1 refl)

closed_lem_example :
    (at_end.workers ≡ [])
    × ((t : ℕ) → queue_task t at_end ≡ none)
    × ((i : ℕ) → times i at_end.executed ≡ times i at_end.accepted)
closed_lem_example = closed_lem one_worker false start_pool at_end started ended_all refl refl
