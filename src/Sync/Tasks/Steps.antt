-- ===== src/Sync/Tasks/Steps.antt =====
-- The steps of a task group, in any order.
use activerecord.Prelude.{
  ℤ, pos, negsuc, ℕ, ◌≤◌, List, length, length-set, length-replicate, get_elem?, Option, none, some,
  Bool, true, ==_iff, ◌≡◌, sym, ap, subst, ◌∙◌, inl, inr, Bool-cases, arith,
}
use activerecord.Sync.Tasks.{
  TaskGroup, new_task_group, do_tasks, ended, release, holds, finish_task, cancel_tasks, channels,
}
use activerecord.Sync.Tasks.Slots.{count-le, count-release, count-replicate, length-channels}
use activerecord.Sync.Tasks.Limit.{IsValid, do_tasks_lem}

holds_eq : (o : Option (Option ℕ)) (k : ℕ) → holds o k ≡ true → o ≡ some (some k)
unfolding holds
holds_eq none k h = cc
holds_eq (some none) k h = cc
holds_eq (some (some l)) k h = ap (λ x. some (some x)) ((==_iff l k).0 h)

release-IsValid :
    (j k : ℕ) (t : TaskGroup)
    → IsValid t
    → get_elem? t.pending j ≡ some (some k)
    → IsValid (release j t)
unfolding release
release-IsValid j k t v e = record {
  places = length-set t.pending j none ∙ v.places;
  counted = (let a = count-release t.pending j k e in let b = v.counted in omega (arith, a, b));
}

finish_task-IsValid : (ctx j k : ℕ) (t : TaskGroup) → IsValid t → IsValid (finish_task ctx j k t)
unfolding finish_task ended
finish_task-IsValid ctx j k t v = elim (Bool-cases (holds (get_elem? t.pending j) k)) [
  | inl e ↦ rw e (
      release-IsValid j k (ended ctx t) (record { places = v.places; counted = v.counted })
        (holds_eq _ k e))
  | inr e ↦ rw e record { places = v.places; counted = v.counted }
]

cancel_tasks-IsValid : (t : TaskGroup) → IsValid t → IsValid (cancel_tasks t)
unfolding cancel_tasks
cancel_tasks-IsValid t v = record {
  places = length-replicate (length t.pending) none ∙ v.places;
  counted = count-replicate (length t.pending);
}

-- A step: a call of Do with what it returns, the end of a task, or Cancel.
pub data Move : TaskGroup → TaskGroup → Type 0 where
  doing :
      {t u : TaskGroup} (goer : ℕ → Bool) (n : ℤ) (chans : List ℕ)
      → do_tasks goer n t ≡ some (u, chans)
      → Move t u
  finishing : {t : TaskGroup} (ctx j k : ℕ) → Move t (finish_task ctx j k t)
  cancelling : {t : TaskGroup} → Move t (cancel_tasks t)

pub data Reached (limit : ℕ) : TaskGroup → Type 0 where
  at_start : Reached limit (new_task_group limit)
  after : {t u : TaskGroup} → Reached limit t → Move t u → Reached limit u

same_result : {A : Type 0} {x y : A} → ◌≡◌ {A = Option A} (some x) (some y) → x ≡ y
same_result h = cc

Move-IsValid : {t u : TaskGroup} → Move t u → IsValid t → IsValid u
Move-IsValid {t} (doing goer (negsuc k) chans e) v =
    let q = sym ((do_tasks_lem goer k t v).0) ∙ e in absurd (cc)
Move-IsValid {t} (doing goer (pos n) chans e) v =
    let (p, r, e', w, a, b) = do_tasks_lem goer n t v in
    subst IsValid (ap (λ p. p.0) (same_result (sym e' ∙ e))) w
Move-IsValid {t} (finishing ctx j k) v = finish_task-IsValid ctx j k t v
Move-IsValid {t} cancelling v = cancel_tasks-IsValid t v

pub new-IsValid : (limit : ℕ) → IsValid (new_task_group limit)
unfolding new_task_group
new-IsValid limit = record { places = length-replicate _ none; counted = count-replicate _ }

Reached-IsValid : {limit : ℕ} {t : TaskGroup} → Reached limit t → IsValid t
Reached-IsValid {limit} at_start = new-IsValid limit
Reached-IsValid (after r s) = Move-IsValid s (Reached-IsValid r)

-- However calls of Do and Cancel and the ends of tasks follow each other, the tasks that the group
-- counts as running are those that hold a channel, and they are not more than its limit.
pub running-le_limit :
    (limit : ℕ) (t : TaskGroup)
    → Reached limit t
    → (length (channels t.pending) ≡ t.running) × (t.running ≤ t.limit)
running-le_limit limit t r =
    let v = Reached-IsValid r in
    let a = v.places in
    let b = v.counted in
    let c = count-le t.pending in (length-channels t.pending ∙ b, omega (arith, a, b, c))
