-- ===== src/Sync/Tasks/Limit.antt =====
-- The limit of a task group, over all its steps.
use activerecord.Prelude.{
  ℕ, zero, suc, pos, negsuc, none, ◌+◌, ◌-◌, ◌≤◌, ◌<◌, List, [], ◌∷◌, length, length-set, set, take,
  some, Bool, true, false, ltb, ltb→lt, lt→ltb, if◌then◌else◌, ◌≡◌, refl, sym, ap, subst, ◌∙◌, inl,
  inr, Bool-cases, arith,
}
use activerecord.Sync.Tasks.{
  TaskGroup, free_slot, put_task, start_task, start_tasks, with_context, channels, at_most, started,
  do_tasks,
}
use activerecord.Sync.Tasks.Slots.{count, free_slot-lt, count-set_free, length-channels}

pub record IsValid (t : TaskGroup) : Type 0 where
  pub places : length t.pending ≡ t.limit
  pub counted : count t.pending ≡ t.running

put_ok :
    (t : TaskGroup)
    → IsValid t
    → t.running < t.limit
    → (u : TaskGroup) × (put_task t ≡ some u)
      × IsValid u
      × (u.limit ≡ t.limit)
      × (u.running ≡ t.running + 1)
unfolding put_task
put_ok t v h =
    let p = v.places in
    let c = v.counted in
    let b = free_slot-lt t.pending (omega (arith, p, c, h)) in
    (
      record t {
        pending = set t.pending (free_slot t.pending) (some t.fresh);
        running = t.running + 1;
        fresh = t.fresh + 1;
      },
      rw (lt→ltb _ _ b) refl,
      record {
        places = length-set t.pending (free_slot t.pending) (some t.fresh) ∙ p;
        counted = (let d = count-set_free t.pending t.fresh b in omega (arith, c, d));
      },
      refl,
      refl,
    )

start_one :
    (b : Bool) (t : TaskGroup)
    → IsValid t
    → t.running < t.limit
    → (u : TaskGroup) × (start_task b t ≡ some u)
      × IsValid u
      × (u.limit ≡ t.limit)
      × (u.running ≡ (if b then t.running + 1 else t.running))
unfolding start_task
start_one true t v h = put_ok t v h
start_one false t v h = (
  record t { fresh = t.fresh + 1 },
  refl,
  record { places = v.places; counted = v.counted },
  refl,
  refl,
)

-- The number of the tasks from the i-th that the Goer starts.
pub started_count : (ℕ → Bool) → ℕ → ℕ → ℕ
started_count goer i zero = 0
started_count goer i (suc k) = (if goer i then 1 else 0) + started_count goer (suc i) k

grow : (b : Bool) (n m l k : ℕ) → n + suc k ≤ l → m ≡ (if b then n + 1 else n) → m + k ≤ l
grow true n m l k h e = omega (arith, h, e)
grow false n m l k h e = omega (arith, h, e)

sums :
    (b : Bool) (n m x c : ℕ)
    → m ≡ (if b then n + 1 else n)
    → x ≡ m + c
    → x ≡ n + ((if b then 1 else 0) + c)
sums true n m x c e f = omega (arith, e, f)
sums false n m x c e f = omega (arith, e, f)

start_all :
    (goer : ℕ → Bool) (i k : ℕ) (t : TaskGroup)
    → IsValid t
    → t.running + k ≤ t.limit
    → (u : TaskGroup) × (start_tasks goer i k t ≡ some u)
      × IsValid u
      × (u.limit ≡ t.limit)
      × (u.running ≡ t.running + started_count goer i k)
unfolding start_tasks started_count
start_all goer i zero t v h = (t, refl, v, refl, omega arith)
start_all goer i (suc k) t v h =
    let (u, e, w, l, r) = start_one (goer i) t v (omega (arith, h)) in
    let (x, e', w', l', r') =
      start_all goer (suc i) k u w
        (grow (goer i) t.running u.running u.limit k (omega (arith, h, l)) r) in
    (x, rw (e, start_tasks) e', w', l' ∙ l, sums (goer i) _ _ _ _ r r')

at_most-le : (limit n : ℕ) → at_most limit n ≤ limit × (at_most limit n ≤ n)
unfolding at_most
at_most-le limit n = elim (Bool-cases (ltb limit n)) [
  | inl e ↦ rw e (omega arith, (let h = ltb→lt _ _ e in omega (arith, h)))
  | inr e ↦ rw e (ground (arith, e), omega arith)
]

context_IsValid : (exec : ℕ) (t : TaskGroup) → IsValid t → IsValid (with_context exec t)
unfolding with_context
context_IsValid exec t v = record { places = v.places; counted = v.counted }

length-take :
    {A : Type 0} (n : ℕ) (xs : List A)
    → length (take n xs) ≤ n × ((n ≤ length xs) → length (take n xs) ≡ n)
length-take zero xs = (omega arith, λ h. refl)
length-take (suc n) [] = (omega arith, λ h. absurd (omega (arith, h)))
length-take (suc n) (x ∷ xs) =
    let (a, b) = length-take n xs in (omega (arith, a), λ h. ap suc (b (omega (arith, h))))

no_task : (r n : ℕ) → ltb r n ≡ false → n - r ≡ 0
no_task r n e = ground (arith, e)

started_ok :
    (goer : ℕ → Bool) (n : ℕ) (t : TaskGroup)
    → IsValid t
    → n ≤ t.limit
    → (u : TaskGroup) × (started goer n t ≡ some u)
      × IsValid u
      × (u.limit ≡ t.limit)
      × (u.running ≡ t.running + started_count goer 0 (n - t.running))
unfolding started started_count with_context
started_ok goer n t v h = elim (Bool-cases (ltb t.running n)) [
  | inl e ↦
      let b = ltb→lt _ _ e in
      rw e (
        start_all goer 0 (n - t.running) (with_context (n - t.running) t) (context_IsValid _ t v)
          (omega (arith, b, h)))
  | inr e ↦ rw e (
    t,
    refl,
    v,
    refl,
    subst (λ k. t.running ≡ t.running + started_count goer 0 k) (sym (no_task _ _ e)) (omega arith),
  )
]

all_started : (goer : ℕ → Bool) (i k : ℕ) → ((j : ℕ) → goer j ≡ true) → started_count goer i k ≡ k
unfolding started_count
all_started goer i zero h = refl
all_started goer i (suc k) h = rw (h i) (let e = all_started goer (suc i) k h in omega (arith, e))

enough :
    (goer : ℕ → Bool) (t u : TaskGroup) (m : ℕ)
    → IsValid u
    → u.running ≡ t.running + started_count goer 0 (m - t.running)
    → ((j : ℕ) → goer j ≡ true)
    → m ≤ length (channels u.pending)
enough goer t u m w r h =
    let a = length-channels u.pending in
    let b = w.counted in let c = all_started goer 0 (m - t.running) h in omega (arith, a, b, c, r)

-- On a group that is in order a call of Do with a negative number panics. With any other number it does
-- not panic and leaves the group in order; it returns at most as many channels as are asked for and as
-- the limit allows, and exactly the smaller of the two when the Goer starts each task.
pub do_tasks_lem :
    (goer : ℕ → Bool) (n : ℕ) (t : TaskGroup)
    → IsValid t
    → (do_tasks goer (negsuc n) t ≡ none)
      × (r : TaskGroup × List ℕ) × (do_tasks goer (pos n) t ≡ some r)
      × IsValid (r.0)
      × (length (r.1) ≤ at_most t.limit n)
      × (((j : ℕ) → goer j ≡ true) → length (r.1) ≡ at_most t.limit n)
unfolding do_tasks
do_tasks_lem goer n t v =
    let m = at_most t.limit n in
    let (u, e, w, l, r) = started_ok goer m t v ((at_most-le t.limit n).0) in
    let (a, b) = length-take m (channels u.pending) in
    (
      refl,
      (u, take m (channels u.pending)),
      rw (e, do_tasks) refl,
      w,
      a,
      λ h. b (enough goer t u m w r h),
    )
