-- ===== src/Workers/Refines.antt =====
-- A pool as what its users see: a bag of tasks that were accepted, each of which is run once.
use activerecord.Prelude.{
  ℕ, zero, suc, ◌<◌, List, ◌∷◌, ◌++◌, Bool, ◌≡◌, refl, ap, inl, inr, Bool-cases, arith, times,
}
use activerecord.Workers.{
  Config, task, stub, Pool, new_pool, is_killed, queue_task, acquire, spawn, see_kill, stop_worker,
  close_pool, workers_gone, push_stub, drain_item, run_item,
}
use activerecord.Workers.Steps.{
  Move, Reached, queueing, handing, acquiring, spawning_one, taking, ending, expiring, seeing_kill,
  leaving_one, closing_pool, waited, pushing, emptying,
}
use activerecord.Workers.Work.{queued, at_work_end, Kept, Reached-Kept, new_pool-Kept}

-- The tasks that were accepted, and those that have run.
pub record Bag : Type 0 where
  pub taken : List ℕ
  pub done : List ℕ

abbrev pub bag_of : Pool → Bag
bag_of p = record { taken = p.accepted; done = p.executed }

-- A task is accepted; a task that was accepted more often than it has run, runs; or nothing is seen.
pub data BagMove (b c : Bag) : Type 0 where
  accepts : (t : ℕ) → c.taken ≡ t ∷ b.taken → c.done ≡ b.done → BagMove b c
  runs :
      (t : ℕ)
      → times t b.done < times t b.taken
      → c.taken ≡ b.taken
      → c.done ≡ t ∷ b.done
      → BagMove b c
  stays : c.taken ≡ b.taken → c.done ≡ b.done → BagMove b c

spawn-BagMove :
    (t : ℕ) (others : List ℕ) (p : Pool) → BagMove (bag_of p) (bag_of ((spawn t others p).0))
unfolding spawn
spawn-BagMove t others p = elim (Bool-cases (is_killed p.closing)) [
  | inl e ↦ stays (ground arith) (ground arith)
  | inr e ↦ accepts t (ground arith) (ground arith)
]

Move-BagMove : {p q : Pool} → ((i : ℕ) → Kept i p) → Move p q → BagMove (bag_of p) (bag_of q)
unfolding queue_task acquire see_kill stop_worker close_pool workers_gone push_stub drain_item
    run_item
Move-BagMove h (queueing t e) = accepts t (ground arith) (ground arith)
Move-BagMove h (handing t before after w e f g) = accepts t refl refl
Move-BagMove h (acquiring t e) = stays (ground arith) (ground arith)
Move-BagMove {p} h (spawning_one t before after e) = spawn-BagMove t (before ++ after) p
Move-BagMove h (taking t rest before after w e f g) = stays refl refl
Move-BagMove h (ending t before after w e f) =
    runs t
      (let a = at_work_end t t before after _ w e f in let b = (h t).all in ground (arith, a, b))
      refl refl
Move-BagMove h (expiring before after e) = stays refl refl
Move-BagMove h (seeing_kill ttl before after e k) = stays (ground arith) (ground arith)
Move-BagMove h (leaving_one before after e f) = stays refl refl
Move-BagMove h closing_pool = stays (ground arith) (ground arith)
Move-BagMove h (waited e f) = stays refl refl
Move-BagMove h (pushing j e) = stays (ground arith) (ground arith)
Move-BagMove h (emptying zero x rest e f) = stays refl refl
Move-BagMove h (emptying (suc j) (task t) rest e f) =
    runs t (let b = (h t).all in let c = ap (λ l. times t (queued l)) f in ground (arith, b, c))
      refl refl
Move-BagMove h (emptying (suc j) stub rest e f) = stays refl refl

-- Every step of a pool, from any state that it reaches, is a step of the bag of its tasks: it accepts a
-- task, it runs a task that was accepted and has not run, or nothing of the bag changes. So no task
-- runs that was not accepted, and none more often than it was.
pub pool_refines_bag :
    (c : Config) (no_cork : Bool) (start p q : Pool)
    → new_pool c no_cork ≡ inr start
    → Reached start p
    → Move p q
    → BagMove (bag_of p) (bag_of q)
pool_refines_bag c no_cork start p q e r m =
    Move-BagMove (λ i. Reached-Kept i (new_pool-Kept c no_cork start i e) r) m
