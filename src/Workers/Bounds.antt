-- ===== src/Workers/Bounds.antt =====
-- The number of workers.
use activerecord.Prelude.{
  length-split, length-put, ℕ, zero, suc, ◌<◌, ◌+◌, ◌≤◌, length, length-replicate, none, Bool, true,
  false, ◌≡◌, refl, ap, subst, ◌⊎◌, inr, arith,
}
use activerecord.Workers.{
  Config, waiting, leaving, Pool, check_config, started_pool, new_pool, queue_task, acquire, spawn,
  start_task, end_task, see_kill, stop_worker, close_pool, workers_gone, push_stub, drain_item,
}
use activerecord.Workers.Steps.{
  Move, Reached, at_start, and_then, queueing, handing, acquiring, spawning_one, taking, ending,
  expiring, seeing_kill, leaving_one, closing_pool, waited, pushing, emptying,
}

pub record IsBounded (max : ℕ) (p : Pool) : Type 0 where
  pub maximum : p.limit ≡ max
  pub held : (p.limit ≡ 0) ⊎ (p.tokens ≡ length p.workers + length p.spawning)
  pub within : (p.limit ≡ 0) ⊎ (p.tokens ≤ p.limit)

Move-IsBounded : {max : ℕ} {p q : Pool} → Move p q → IsBounded max p → IsBounded max q
unfolding queue_task acquire spawn see_kill stop_worker close_pool workers_gone push_stub drain_item
Move-IsBounded (queueing t e) h = ground arith
Move-IsBounded (handing t before after w e f g) h =
    let l = length-put before after w (start_task w t) in ground (arith, ap length e)
Move-IsBounded (acquiring t e) h = ground arith
Move-IsBounded (spawning_one t before after e) h = ground (arith, length-split before after t _ e)
Move-IsBounded (taking t rest before after w e f g) h =
    let l = length-put before after w (start_task w t) in ground (arith, ap length e)
Move-IsBounded (ending t before after w e f) h =
    let l = length-put before after w (end_task w) in ground (arith, ap length e)
Move-IsBounded (expiring before after e) h =
    ground (arith, length-split before after (waiting true) _ e)
Move-IsBounded (seeing_kill ttl before after e k) h = ground (
  arith,
  ap length e,
  length-split before after (waiting ttl) _ e,
  length-put before after (waiting ttl) leaving,
)
Move-IsBounded (leaving_one before after e f) h = ground (arith, length-split before after _ _ e)
Move-IsBounded closing_pool h = ground arith
Move-IsBounded (waited e f) h = ground arith
Move-IsBounded (pushing i e) h = ground arith
Move-IsBounded (emptying zero x rest e f) h = h
Move-IsBounded (emptying (suc j) x rest e f) h = record {
  maximum = h.maximum;
  held = h.held;
  within = h.within;
}

Reached-IsBounded :
    {max : ℕ} {start p : Pool} → IsBounded max start → Reached start p → IsBounded max p
Reached-IsBounded h at_start = h
Reached-IsBounded h (and_then r m) = Move-IsBounded m (Reached-IsBounded h r)

pub new_pool_inv :
    (c : Config) (no_cork : Bool) (p : Pool)
    → new_pool c no_cork ≡ inr p
    → (check_config c ≡ none) × (started_pool c no_cork ≡ p)
unfolding new_pool
new_pool_inv c no_cork p e = ground arith

started_pool-IsBounded :
    (c : Config) (no_cork : Bool)
    → check_config c ≡ none
    → IsBounded c.max_workers (started_pool c no_cork)
unfolding started_pool check_config
started_pool-IsBounded c no_cork e =
    let l = length-replicate c.unstoppable_workers (waiting false) in
    record { maximum = refl; held = ground arith; within = ground arith }

-- However the steps of a pool with a maximum follow each other, the workers that run, and the tasks that
-- are about to get a worker of their own, are never more than the maximum of its configuration.
pub workers-le_max :
    (c : Config) (no_cork : Bool) (start p : Pool)
    → new_pool c no_cork ≡ inr start
    → Reached start p
    → 0 < c.max_workers
    → length p.workers + length p.spawning ≤ c.max_workers
workers-le_max c no_cork start p e r h =
    let (a, b) = new_pool_inv c no_cork start e in
    let v =
      Reached-IsBounded (subst (IsBounded c.max_workers) b (started_pool-IsBounded c no_cork a))
        r in
    ground (arith, v.maximum, v.held, v.within)
