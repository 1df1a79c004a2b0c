-- ===== src/Workers/Closed.antt =====
-- A closed pool has run every task that it accepted.
use activerecord.Prelude.{
  ℕ, zero, suc, ◌+◌, ◌<◌, ◌≤◌, List, [], ◌∷◌, ◌++◌, length, length-append, none, some, Bool, true,
  false, ◌==◌, ltb, if◌then◌else◌, ◌≡◌, ◌≢◌, refl, ap, subst, ◌⊎◌, inl, inr, arith, times,
}
use activerecord.Workers.{
  Config, Item, task, stub, Worker, leaving, CloseState, opened, awaiting, corking, draining,
  closed, Pool, started_pool, new_pool, is_killed, queue_task, acquire, spawn, see_kill,
  stop_worker, close_pool, workers_gone, push_stub, drain_item,
}
use activerecord.Workers.Steps.{
  Move, Reached, at_start, and_then, queueing, handing, acquiring, spawning_one, taking, ending,
  expiring, seeing_kill, leaving_one, closing_pool, waited, pushing, emptying,
}
use activerecord.Workers.Bounds.{new_pool_inv}
use activerecord.Workers.Work.{queued, at_work, Reached-Kept, new_pool-Kept}

abbrev pub stubs : List Item → ℕ
stubs [] = 0
stubs (task t ∷ xs) = stubs xs
stubs (stub ∷ xs) = suc (stubs xs)

stubs-append : (xs ys : List Item) → stubs (xs ++ ys) ≡ stubs xs + stubs ys
stubs-append [] ys = omega arith
stubs-append (task t ∷ xs) ys = stubs-append xs ys
stubs-append (stub ∷ xs) ys = omega (arith, stubs-append xs ys)

stubs-le : (xs : List Item) → stubs xs ≤ length xs
stubs-le [] = omega arith
stubs-le (task t ∷ xs) = omega (arith, stubs-le xs)
stubs-le (stub ∷ xs) = omega (arith, stubs-le xs)

some_worker : (before after : List Worker) (w : Worker) → (before ++ (w ∷ after)) ≢ []
some_worker [] after w e = cc
some_worker (v ∷ before) after w e = cc

queued_none : (xs : List Item) → stubs xs ≡ length xs → queued xs ≡ []
queued_none [] h = refl
queued_none (task t ∷ xs) h = absurd (let a = stubs-le xs in omega (arith, a, h))
queued_none (stub ∷ xs) h = queued_none xs (omega (arith, h))

-- What holds of the queue and the workers in each state of Close.
abbrev Filled : CloseState → Bool → ℕ → List Item → List Worker → Type 0
Filled opened no_cork n work ws = stubs work ≡ 0
Filled awaiting no_cork n work ws = stubs work ≡ 0
Filled (corking i) no_cork n work ws = (ws ≡ []) × (i ≤ stubs work)
Filled (draining j) no_cork n work ws = ws ≡ []
Filled closed no_cork n work ws = (ws ≡ []) × ((no_cork ≡ true) ⊎ (stubs work ≡ n))

record IsFilled (p : Pool) : Type 0 where
  room : length p.work ≤ p.capacity
  filled : Filled p.closing p.no_cork p.capacity p.work p.workers

queueing-Filled :
    (s : CloseState) (no_cork : Bool) (n t : ℕ) (work : List Item) (ws : List Worker)
    → Filled s no_cork n work ws
    → Filled s no_cork n (work ++ (task t ∷ [])) ws
queueing-Filled opened no_cork n t work ws h = omega (arith, h, stubs-append work (task t ∷ []))
queueing-Filled awaiting no_cork n t work ws h = omega (arith, h, stubs-append work (task t ∷ []))
queueing-Filled (corking i) no_cork n t work ws h =
    (h.0, let a = h.1 in omega (arith, a, stubs-append work (task t ∷ [])))
queueing-Filled (draining j) no_cork n t work ws h = h
queueing-Filled closed no_cork n t work ws h = ground (arith, stubs-append work (task t ∷ []))

-- Workers are only there before the corking.
working-Filled :
    (s : CloseState) (no_cork : Bool) (n : ℕ) (work rest : List Item)
    (before after ws : List Worker) (w : Worker)
    → Filled s no_cork n work (before ++ (w ∷ after))
    → (stubs work ≡ 0 → stubs rest ≡ 0)
    → Filled s no_cork n rest ws
working-Filled opened no_cork n work rest before after ws w h e = e h
working-Filled awaiting no_cork n work rest before after ws w h e = e h
working-Filled (corking i) no_cork n work rest before after ws w h e =
    absurd (some_worker before after w (h.0))
working-Filled (draining j) no_cork n work rest before after ws w h e =
    absurd (some_worker before after w h)
working-Filled closed no_cork n work rest before after ws w h e =
    absurd (some_worker before after w (h.0))

unkilled :
    (s : CloseState) (no_cork : Bool) (n : ℕ) (work : List Item) (ws vs : List Worker)
    → is_killed s ≡ false
    → Filled s no_cork n work ws
    → Filled s no_cork n work vs
unkilled opened no_cork n work ws vs k h = h
unkilled awaiting no_cork n work ws vs k h = h
unkilled (corking i) no_cork n work ws vs k h = absurd (cc)
unkilled (draining j) no_cork n work ws vs k h = absurd (cc)
unkilled closed no_cork n work ws vs k h = absurd (cc)

no_stubs :
    (s : CloseState) (no_cork : Bool) (n : ℕ) (work : List Item) (ws : List Worker)
    → is_killed s ≡ false
    → Filled s no_cork n work ws
    → stubs work ≡ 0
no_stubs opened no_cork n work ws k h = h
no_stubs awaiting no_cork n work ws k h = h
no_stubs (corking i) no_cork n work ws k h = absurd (cc)
no_stubs (draining j) no_cork n work ws k h = absurd (cc)
no_stubs closed no_cork n work ws k h = absurd (cc)

gone-Filled :
    (no_cork : Bool) (n : ℕ) (work : List Item) (ws : List Worker)
    → ws ≡ []
    → Filled (if no_cork then closed else corking 0) no_cork n work ws
gone-Filled true n work ws e = (e, inl refl)
gone-Filled false n work ws e = (e, omega arith)

drained-Filled :
    (last : Bool) (j : ℕ) (no_cork : Bool) (n : ℕ) (work : List Item) (ws : List Worker)
    → ws ≡ []
    → Filled (if last then corking 0 else draining j) no_cork n work ws
drained-Filled true j no_cork n work ws e = (e, omega arith)
drained-Filled false j no_cork n work ws e = e

either-IsFilled :
    {p q : Pool} (b : Bool)
    → (b ≡ true → IsFilled p)
    → (b ≡ false → IsFilled q)
    → IsFilled (if b then p else q)
either-IsFilled true h k = h refl
either-IsFilled false h k = k refl

module _ {p : Pool} where
  -- A step of a worker: the queue loses no stub, and the workers may change.
  working-IsFilled :
      (before after ws : List Worker) (w : Worker)
      → p.workers ≡ before ++ (w ∷ after)
      → IsFilled p
      → Filled p.closing p.no_cork p.capacity p.work ws
  working-IsFilled before after ws w e h =
      working-Filled p.closing p.no_cork p.capacity p.work p.work before after ws w
        (subst (Filled p.closing p.no_cork p.capacity p.work) e h.filled) (λ x. x)

  spawn-IsFilled : (t : ℕ) (others : List ℕ) → IsFilled p → IsFilled (spawn t others p).0
  unfolding spawn
  spawn-IsFilled t others h =
      either-IsFilled (is_killed p.closing) (λ k. record { room = h.room; filled = h.filled })
        (λ k. record {
          room = h.room;
          filled = unkilled p.closing p.no_cork p.capacity p.work p.workers _ k h.filled;
        })

  see_kill-IsFilled :
      (before after : List Worker) (w : Worker)
      → p.workers ≡ before ++ (w ∷ after)
      → IsFilled p
      → IsFilled (see_kill before after p)
  unfolding see_kill
  see_kill-IsFilled before after w e h =
      either-IsFilled p.no_cork
        (λ k. record {
          room = h.room;
          filled = working-IsFilled before after (before ++ after) w e h;
        })
        (λ k. record {
          room = h.room;
          filled = working-IsFilled before after (before ++ (leaving ∷ after)) w e h;
        })

  close_pool-IsFilled : IsFilled p → IsFilled (close_pool p)
  unfolding close_pool
  close_pool-IsFilled h =
      either-IsFilled (is_killed p.closing) (λ k. h)
        (λ k. record {
          room = h.room;
          filled = no_stubs p.closing p.no_cork p.capacity p.work p.workers k h.filled;
        })

  workers_gone-IsFilled : p.workers ≡ [] → IsFilled p → IsFilled (workers_gone p)
  unfolding workers_gone
  workers_gone-IsFilled e h = record {
    room = h.room;
    filled = gone-Filled p.no_cork p.capacity p.work p.workers e;
  }

  push_stub-IsFilled : (i : ℕ) → p.closing ≡ corking i → IsFilled p → IsFilled (push_stub i p)
  unfolding push_stub
  push_stub-IsFilled i e h =
      let (w, s) = subst (λ s. Filled s p.no_cork p.capacity p.work p.workers) e h.filled in
      let r = h.room in
      either-IsFilled (i == p.capacity)
        (λ k. record {
          room = r;
          filled = (w, inr (let a = stubs-le p.work in ground (arith, a, r, s, k)));
        })
        (λ k.
          either-IsFilled (ltb (length p.work) p.capacity)
            (λ l. record {
              room = (let a = length-append p.work (stub ∷ []) in ground (arith, a, l));
              filled = (w, let a = stubs-append p.work (stub ∷ []) in omega (arith, a, s));
            })
            (λ l. record { room = r; filled = w }))

  drain_item-IsFilled :
      (j : ℕ) (x : Item) (rest : List Item)
      → p.closing ≡ draining j
      → p.work ≡ x ∷ rest
      → IsFilled p
      → IsFilled (drain_item j x rest p)
  unfolding drain_item
  drain_item-IsFilled zero x rest e f h = h
  drain_item-IsFilled (suc j) x rest e f h = record {
    room = let a = ap length f in let b = h.room in omega (arith, a, b);
    filled =
        drained-Filled (j == 0) j p.no_cork p.capacity rest p.workers
          (subst (λ s. Filled s p.no_cork p.capacity p.work p.workers) e h.filled);
  }

taking-IsFilled :
    {p : Pool} (t : ℕ) (rest : List Item) (before after ws : List Worker) (w : Worker)
    → p.workers ≡ before ++ (w ∷ after)
    → p.work ≡ task t ∷ rest
    → IsFilled p
    → (length rest ≤ p.capacity) × Filled p.closing p.no_cork p.capacity rest ws
taking-IsFilled {p} t rest before after ws w e f h = (
  let a = ap length f in let b = h.room in omega (arith, a, b),
  working-Filled p.closing p.no_cork p.capacity (task t ∷ rest) rest before after ws w
      (subst (λ xs. Filled p.closing p.no_cork p.capacity xs (before ++ (w ∷ after))) f
        (subst (Filled p.closing p.no_cork p.capacity p.work) e h.filled))
      (λ x. x),
)

queueing-IsFilled : {p q : Pool} (t : ℕ) → queue_task t p ≡ some q → IsFilled p → IsFilled q
unfolding queue_task
queueing-IsFilled {p} {q} t e h =
    let put : Pool = record p { work = p.work ++ (task t ∷ []); accepted = t ∷ p.accepted } in
    let room : length p.work < p.capacity = ground arith in
    let same : put ≡ q = ground arith in
    subst IsFilled same (record {
      room = let a = length-append p.work (task t ∷ []) in omega (arith, a, room);
      filled = queueing-Filled p.closing p.no_cork p.capacity t p.work p.workers h.filled;
    })

Move-IsFilled : {p q : Pool} → Move p q → IsFilled p → IsFilled q
unfolding acquire stop_worker
Move-IsFilled (queueing t e) h = queueing-IsFilled t e h
Move-IsFilled (handing t before after w e f g) h = record {
  room = h.room;
  filled = working-IsFilled before after _ w e h;
}
Move-IsFilled (acquiring t e) h = ground (arith, h)
Move-IsFilled (spawning_one t before after e) h = spawn-IsFilled t (before ++ after) h
Move-IsFilled (taking t rest before after w e f g) h =
    let (a, b) = taking-IsFilled t rest before after _ w e g h in record { room = a; filled = b }
Move-IsFilled (ending t before after w e f) h = record {
  room = h.room;
  filled = working-IsFilled before after _ w e h;
}
Move-IsFilled (expiring before after e) h = record {
  room = h.room;
  filled = working-IsFilled before after _ _ e h;
}
Move-IsFilled (seeing_kill ttl before after e k) h = see_kill-IsFilled before after _ e h
Move-IsFilled (leaving_one before after e f) h = record {
  room = h.room;
  filled = working-IsFilled before after _ _ e h;
}
Move-IsFilled closing_pool h = close_pool-IsFilled h
Move-IsFilled (waited e f) h = workers_gone-IsFilled f h
Move-IsFilled (pushing i e) h = push_stub-IsFilled i e h
Move-IsFilled (emptying j x rest e f) h = drain_item-IsFilled j x rest e f h

Reached-IsFilled : {start p : Pool} → IsFilled start → Reached start p → IsFilled p
Reached-IsFilled h at_start = h
Reached-IsFilled h (and_then r m) = Move-IsFilled m (Reached-IsFilled h r)

started_pool-IsFilled : (c : Config) (no_cork : Bool) → IsFilled (started_pool c no_cork)
unfolding started_pool
started_pool-IsFilled c no_cork = record { room = omega arith; filled = refl }

-- When Close has ended, of a pool that corks its queue, no worker is left, no task can be put into the
-- queue, and every task that was accepted has run, as often as it was accepted.
pub closed_lem :
    (c : Config) (no_cork : Bool) (start p : Pool)
    → new_pool c no_cork ≡ inr start
    → Reached start p
    → p.closing ≡ closed
    → p.no_cork ≡ false
    → (p.workers ≡ [])
      × ((t : ℕ) → queue_task t p ≡ none)
      × ((i : ℕ) → times i p.executed ≡ times i p.accepted)
unfolding queue_task
closed_lem c no_cork start p e r d n =
    let v =
      Reached-IsFilled
        (subst IsFilled ((new_pool_inv c no_cork start e).1) (started_pool-IsFilled c no_cork)) r in
    let (w, f) = subst (λ s. Filled s p.no_cork p.capacity p.work p.workers) d v.filled in
    let full : stubs p.work ≡ p.capacity = ground (arith, n, f) in
    let room = v.room in
    let most = stubs-le p.work in
    let none_queued : queued p.work ≡ [] = queued_none p.work (omega (arith, full, room, most)) in
    (
      w,
      λ t. ground (arith, full, room, most),
      λ i.
          (let k = (Reached-Kept i (new_pool-Kept c no_cork start i e) r).all in
            let a : times i (queued p.work) ≡ 0 = rw none_queued refl in
            let b : times i (at_work p.workers) ≡ 0 = rw w refl in omega (arith, k, a, b)),
    )
