-- ===== src/Sync/Runner/Results.antt =====
-- The results of the calls of Do.
use activerecord.Prelude.{
  ℕ, ◌≤◌, ◌+◌, List, [], ◌∷◌, ◌++◌, length, length-append, map, Option, none, some, ltb,
  if◌then◌else◌, ◌≡◌, refl, ap, arith, times, times-append, Option-cases, inl, inr,
}
use activerecord.Sync.Runner.{
  TaskError, TaskEnd, TaskRunner, new_runner, receivers, do_task, init_task, subscribe, cancel_task,
  broadcast_err, end_of_task, result_of,
}
use activerecord.Sync.Runner.Steps.{
  Move, Reached, at_start, and_then, doing, cancelling, ending, sending_one, leaving,
}

abbrev pub ids : List (ℕ × Option TaskError) → List ℕ
ids [] = []
ids (r ∷ rs) = r.0 ∷ ids rs

ids-append : (xs ys : List (ℕ × Option TaskError)) → ids (xs ++ ys) ≡ ids xs ++ ids ys
ids-append [] ys = refl
ids-append (x ∷ xs) ys = ap (λ l. x.0 ∷ l) (ids-append xs ys)

ids-map : (e : Option TaskError) (xs : List ℕ) → ids (map (λ r. (r, e)) xs) ≡ xs
ids-map e [] = refl
ids-map e (x ∷ xs) = ap (λ l. x ∷ l) (ids-map e xs)

abbrev pub busy : Option (List ℕ) → ℕ
busy none = 0
busy (some xs) = 1

record IsValid (t : TaskRunner) : Type 0 where
  single : length t.running ≡ busy t.rcvrs
  counted :
      (i : ℕ)
      → times i (receivers t.rcvrs) + (times i (ids t.sending) + times i (ids t.results))
        ≡ (if ltb i t.calls then 1 else 0)

doing-IsValid : {t : TaskRunner} → IsValid t → IsValid (do_task t)
unfolding do_task subscribe init_task
doing-IsValid {t} h = elim (Option-cases t.rcvrs) [
  | inl e ↦ rw e record {
    single = (let a = h.single in ground (arith, a, e));
    counted = λ i. (let a = h.counted i in ground (arith, a, e));
  }
  | inr (xs, e) ↦ rw e record {
    single = (let a = h.single in ground (arith, a, e));
    counted = λ i. (let a = h.counted i in ground (arith, a, e, times-append i xs (t.calls ∷ [])));
  }
]

times-split :
    (i : ℕ) (before after : List (ℕ × Option TaskError)) (r : ℕ × Option TaskError)
    → times i (ids (before ++ (r ∷ after))) ≡ times i (ids (before ++ after)) + times i (r.0 ∷ [])
times-split i [] after r = ground arith
times-split i (b ∷ before) after r = ground (arith, times-split i before after r)

times-broadcast :
    (i : ℕ) (e : Option TaskError) (xs : List ℕ) (s : List (ℕ × Option TaskError))
    → times i (ids (map (λ r. (r, e)) xs ++ s)) ≡ times i xs + times i (ids s)
times-broadcast i e [] s = omega arith
times-broadcast i e (x ∷ xs) s = ground (arith, times-broadcast i e xs s)

busy-le_one : (o : Option (List ℕ)) → busy o ≤ 1
busy-le_one none = omega arith
busy-le_one (some xs) = omega arith

ending-IsValid :
    {t : TaskRunner} (before after : List ℕ) (k : ℕ) (e : TaskEnd)
    → t.running ≡ before ++ (k ∷ after)
    → IsValid t
    → IsValid (end_of_task before after e t)
unfolding end_of_task broadcast_err
ending-IsValid {t} before after k e f h = record {
  single =
      (let a = h.single in
        let b = ap length f in
        let c = busy-le_one t.rcvrs in
        omega (arith, a, b, c, length-append before (k ∷ after), length-append before after));
  counted = λ i.
      (let a = h.counted i in
        let b = times-broadcast i (result_of e) (receivers t.rcvrs) t.sending in
        omega (arith, a, b));
}

sending-IsValid :
    {t : TaskRunner} (before after : List (ℕ × Option TaskError)) (r : ℕ × Option TaskError)
    → t.sending ≡ before ++ (r ∷ after)
    → IsValid t
    → IsValid (record t { sending = before ++ after; results = r ∷ t.results })
sending-IsValid {t} before after r e h = record {
  single = h.single;
  counted = λ i.
      (let a = h.counted i in
        let b = ap (λ s. times i (ids s)) e in ground (arith, a, b, times-split i before after r));
}

cancel-IsValid : {t : TaskRunner} → IsValid t → IsValid (cancel_task t)
unfolding cancel_task
cancel-IsValid h = record {
  single = (let a = h.single in ground (arith, a));
  counted = λ i. (let a = h.counted i in ground (arith, a));
}

Move-IsValid : {t u : TaskRunner} → Move t u → IsValid t → IsValid u
Move-IsValid doing h = doing-IsValid h
Move-IsValid cancelling h = cancel-IsValid h
Move-IsValid (ending before after k e f) h = ending-IsValid before after k e f h
Move-IsValid (sending_one before after r e) h = sending-IsValid before after r e h
Move-IsValid (leaving k) h = record { single = h.single; counted = h.counted }

Reached-IsValid : {t : TaskRunner} → Reached t → IsValid t
unfolding new_runner
Reached-IsValid at_start = record { single = refl; counted = λ i. ground arith }
Reached-IsValid (and_then r m) = Move-IsValid m (Reached-IsValid r)

-- In every state that the steps lead to one task runs if there are receivers and none if there are not,
-- and each call of Do is once among the receivers, what is left to send and the results that were sent;
-- a number that is not a call is there not at all.
pub one_result :
    {t : TaskRunner} (i : ℕ)
    → Reached t
    → (length t.running ≡ busy t.rcvrs)
      × (times i (receivers t.rcvrs) + (times i (ids t.sending) + times i (ids t.results))
          ≡ (if ltb i t.calls then 1 else 0))
one_result i r = let h = Reached-IsValid r in (h.single, h.counted i)
