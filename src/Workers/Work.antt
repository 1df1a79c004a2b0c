-- ===== src/Workers/Work.antt =====
-- No task is lost and none is run twice; the pool as a bag of tasks.
use activerecord.Prelude.{
  ℕ, zero, suc, ◌+◌, List, [], ◌∷◌, ◌++◌, Bool, false, ◌≡◌, refl, ap, subst, inr, arith, times,
  times-append, replicate,
}
use activerecord.Workers.{
  Config, Item, task, stub, Worker, waiting, running, leaving, finishing, Pool, started_pool,
  new_pool, queue_task, acquire, spawn, start_task, end_task, task_of, see_kill, stop_worker,
  close_pool, workers_gone, push_stub, drain_item, run_item,
}
use activerecord.Workers.Steps.{
  Move, Reached, at_start, and_then, queueing, handing, acquiring, spawning_one, taking, ending,
  expiring, seeing_kill, leaving_one, closing_pool, waited, pushing, emptying,
}
use activerecord.Workers.Bounds.{new_pool_inv}

abbrev pub queued : List Item → List ℕ
queued [] = []
queued (task t ∷ xs) = t ∷ queued xs
queued (stub ∷ xs) = queued xs

abbrev pub at_work : List Worker → List ℕ
at_work [] = []
at_work (w ∷ ws) = task_of w ++ at_work ws

times-queued :
    (i : ℕ) (xs ys : List Item)
    → times i (queued (xs ++ ys)) ≡ times i (queued xs) + times i (queued ys)
times-queued i [] ys = omega arith
times-queued i (task t ∷ xs) ys = ground (arith, times-queued i xs ys)
times-queued i (stub ∷ xs) ys = times-queued i xs ys

times-at_work :
    (i : ℕ) (before after : List Worker) (w : Worker)
    → times i (at_work (before ++ (w ∷ after)))
      ≡ times i (task_of w) + times i (at_work (before ++ after))
times-at_work i [] after w = times-append i (task_of w) (at_work after)
times-at_work i (v ∷ before) after w = omega (
  arith,
  times-append i (task_of v) (at_work (before ++ (w ∷ after))),
  times-append i (task_of v) (at_work (before ++ after)),
  times-at_work i before after w,
)

task_of-start_task : (w : Worker) (t : ℕ) → task_of w ≡ [] → task_of (start_task w t) ≡ t ∷ []
unfolding start_task
task_of-start_task (waiting ttl) t h = refl
task_of-start_task (running ttl u) t h = absurd (cc)
task_of-start_task leaving t h = refl
task_of-start_task (finishing u) t h = absurd (cc)

task_of-end_task : (w : Worker) → task_of (end_task w) ≡ []
unfolding end_task
task_of-end_task (waiting ttl) = refl
task_of-end_task (running ttl t) = refl
task_of-end_task leaving = refl
task_of-end_task (finishing t) = refl

-- Of each task, as many as were accepted are queued, running or done.
pub record Kept (i : ℕ) (p : Pool) : Type 0 where
  pub all :
      times i (queued p.work) + times i (at_work p.workers) + times i p.executed
      ≡ times i p.accepted

-- A worker that has no task starts t, or one whose task is t ends it.
at_work_start :
    (i t : ℕ) (before after ws : List Worker) (w : Worker)
    → ws ≡ before ++ (w ∷ after)
    → task_of w ≡ []
    → times i (at_work (before ++ (start_task w t ∷ after)))
      ≡ times i (t ∷ []) + times i (at_work ws)
at_work_start i t before after ws w e f =
    let a = times-at_work i before after w in
    let b = times-at_work i before after (start_task w t) in
    let c = ap (times i) (task_of-start_task w t f) in
    let d = ap (times i) f in
    let g = ap (λ l. times i (at_work l)) e in omega (arith, a, b, c, d, g)

pub at_work_end :
    (i t : ℕ) (before after ws : List Worker) (w : Worker)
    → ws ≡ before ++ (w ∷ after)
    → task_of w ≡ t ∷ []
    → times i (at_work ws) ≡ times i (t ∷ []) + times i (at_work (before ++ (end_task w ∷ after)))
at_work_end i t before after ws w e f =
    let a = times-at_work i before after w in
    let b = times-at_work i before after (end_task w) in
    let c = ap (times i) (task_of-end_task w) in
    let d = ap (times i) f in
    let g = ap (λ l. times i (at_work l)) e in omega (arith, a, b, c, d, g)

-- A worker without a task goes.
at_work_gone :
    (i : ℕ) (before after ws : List Worker) (w : Worker)
    → ws ≡ before ++ (w ∷ after)
    → task_of w ≡ []
    → times i (at_work (before ++ after)) ≡ times i (at_work ws)
at_work_gone i before after ws w e f =
    let a = times-at_work i before after w in
    let d = ap (times i) f in let g = ap (λ l. times i (at_work l)) e in omega (arith, a, d, g)

Move-Kept : {p q : Pool} (i : ℕ) → Move p q → Kept i p → Kept i q
unfolding queue_task acquire spawn see_kill stop_worker close_pool workers_gone push_stub drain_item
    run_item
Move-Kept {p} i (queueing t e) h = ground (arith, times-queued i p.work (task t ∷ []))
Move-Kept i (handing t before after w e f g) h = record {
  all = let a = at_work_start i t before after _ w e f in let b = h.all in ground (arith, a, b);
}
Move-Kept i (acquiring t e) h = ground arith
Move-Kept i (spawning_one t before after e) h = ground arith
Move-Kept i (taking t rest before after w e f g) h = record {
  all =
      let a = at_work_start i t before after _ w e f in
      let b = h.all in let c = ap (λ l. times i (queued l)) g in ground (arith, a, b, c);
}
Move-Kept i (ending t before after w e f) h = record {
  all = let a = at_work_end i t before after _ w e f in let b = h.all in ground (arith, a, b);
}
Move-Kept i (expiring before after e) h = record {
  all = let a = at_work_gone i before after _ _ e refl in let b = h.all in omega (arith, a, b);
}
Move-Kept i (seeing_kill ttl before after e k) h = ground (
  arith,
  at_work_gone i before after _ (waiting ttl) e refl,
  times-at_work i before after leaving,
)
Move-Kept i (leaving_one before after e f) h = record {
  all = let a = at_work_gone i before after _ _ e refl in let b = h.all in omega (arith, a, b);
}
Move-Kept i closing_pool h = ground arith
Move-Kept i (waited e f) h = record { all = h.all }
Move-Kept {p} i (pushing j e) h = ground (arith, times-queued i p.work (stub ∷ []))
Move-Kept i (emptying zero x rest e f) h = h
Move-Kept i (emptying (suc j) (task t) rest e f) h = record {
  all = let b = h.all in let c = ap (λ l. times i (queued l)) f in ground (arith, b, c);
}
Move-Kept i (emptying (suc j) stub rest e f) h = record {
  all = let b = h.all in let c = ap (λ l. times i (queued l)) f in ground (arith, b, c);
}

pub Reached-Kept : {start p : Pool} (i : ℕ) → Kept i start → Reached start p → Kept i p
Reached-Kept i h at_start = h
Reached-Kept i h (and_then r m) = Move-Kept i m (Reached-Kept i h r)

at_work_idle : (i n : ℕ) → times i (at_work (replicate n (waiting false))) ≡ 0
at_work_idle i zero = refl
at_work_idle i (suc n) = at_work_idle i n

pub new_pool-Kept :
    (c : Config) (no_cork : Bool) (p : Pool) (i : ℕ) → new_pool c no_cork ≡ inr p → Kept i p
unfolding started_pool
new_pool-Kept c no_cork p i e =
    subst (Kept i) ((new_pool_inv c no_cork p e).1)
      (record { all = let a = at_work_idle i c.unstoppable_workers in omega (arith, a) })
