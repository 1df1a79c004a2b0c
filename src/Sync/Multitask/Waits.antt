-- ===== src/Sync/Multitask/Waits.antt =====
-- Do returns when every actor that was started has ended.
use activerecord.Prelude.{
  ℕ, ◌<◌, ◌≤◌, ◌==◌, ◌+◌, ◌-◌, List, ◌∷◌, ◌++◌, length, Option, none, some, Bool, ltb, ◌≡◌, refl,
  ap, subst, arith, length-split, Bool-cases, Option-cases, ◌⊎◌, inl, inr,
}
use activerecord.Sync.Multitask.{
  Progress, starting, waiting, returned, Multitask, new_multitask, start_actor, next_round,
  end_actor, return_from_do,
}
use activerecord.Sync.Multitask.Steps.{
  Move, Reached, at_start, and_then, round, ending, returning, canceling,
}

-- The rounds that the loop has left, and whether Do is done.
abbrev pub rounds_left : ℕ → Progress → ℕ
rounds_left n (starting i) = n - i
rounds_left n waiting = 0
rounds_left n returned = 0

abbrev IsWithin : ℕ → Progress → Type 0
IsWithin n (starting i) = i ≤ n
IsWithin n waiting = 0 ≤ n
IsWithin n returned = 0 ≤ n

abbrev running_at_end : Progress → List ℕ → ℕ
running_at_end (starting i) xs = 0
running_at_end waiting xs = 0
running_at_end returned xs = length xs

record IsCounted (n : ℕ) (m : Multitask) : Type 0 where
  total : m.n ≡ n
  within : IsWithin n m.progress
  waited : m.wg ≡ length m.running + rounds_left n m.progress
  all : (m.error ≡ none) → length m.ended + (length m.running + rounds_left n m.progress) ≡ n
  at_end : running_at_end m.progress m.running ≡ 0

left_at : (n i : ℕ) (m : Multitask) → m.progress ≡ starting i → rounds_left n m.progress ≡ n - i
left_at n i m e = ap (rounds_left n) e

within_at : (n i : ℕ) (m : Multitask) → m.progress ≡ starting i → IsWithin n m.progress → i ≤ n
within_at n i m e w = subst (IsWithin n) e w

at_end_shorter :
    (p : Progress) (xs ys : List ℕ)
    → length ys ≤ length xs
    → running_at_end p xs ≡ 0
    → running_at_end p ys ≡ 0
at_end_shorter (starting i) xs ys l e = refl
at_end_shorter waiting xs ys l e = refl
at_end_shorter returned xs ys l e = omega (arith, l, e)

-- A round whose index is below n.
started-IsCounted :
    {n : ℕ} (m : Multitask) (r : Option ℕ) (i : ℕ)
    → m.n ≡ n
    → i ≤ n
    → rounds_left n m.progress ≡ n - i
    → i < m.n
    → IsCounted n m
    → IsCounted n (start_actor r i m)
unfolding start_actor
started-IsCounted m none i t w l c h = record {
  total = t;
  within = omega (arith, t, c);
  waited = (let a = h.waited in omega (arith, a, l, t, c));
  all = λ z. (let a = h.all z in omega (arith, a, l, t, c));
  at_end = refl;
}
started-IsCounted {n} m (some e) i t w l c h = record {
  total = t;
  within = omega arith;
  waited = (let a = h.waited in omega (arith, a, l, t, ap (λ k. k - i) t));
  all = λ z. cc;
  at_end = refl;
}

Round-IsCounted :
    {n : ℕ} (m : Multitask) (r : Option ℕ) (i : ℕ)
    → m.progress ≡ starting i
    → IsCounted n m
    → IsCounted n (next_round r i m)
unfolding next_round start_actor
Round-IsCounted {n} m r i e h =
    let t = h.total in
    let l = left_at n i m e in
    let w = within_at n i m e h.within in
    let a = h.waited in
    elim (Bool-cases (ltb i m.n)) [
      | inl c ↦ rw c (started-IsCounted m r i t w l (ground (arith, c)) h)
      | inr c ↦ rw c record {
        total = t;
        within = omega arith;
        waited = ground (arith, c, a, l, t, w);
        all = λ z. (let b = h.all z in ground (arith, b, c, l, t, w));
        at_end = refl;
      }
    ]

end_actor-IsCounted :
    {n : ℕ} (m : Multitask) (before : List ℕ) (i : ℕ) (after : List ℕ) (ok : Bool)
    → m.running ≡ before ++ (i ∷ after)
    → IsCounted n m
    → IsCounted n (end_actor before i after ok m)
unfolding end_actor
end_actor-IsCounted {n} m before i after ok e h = record {
  total = h.total;
  within = h.within;
  waited =
      (let l = length-split before after i m.running e in let a = h.waited in omega (arith, l, a));
  all = λ z.
      (let l = length-split before after i m.running e in let a = h.all z in omega (arith, l, a));
  at_end =
      at_end_shorter m.progress m.running (before ++ after)
        (let l = length-split before after i m.running e in omega (arith, l)) h.at_end;
}

return-IsCounted :
    {n : ℕ} (m : Multitask) → m.progress ≡ waiting → IsCounted n m → IsCounted n (return_from_do m)
unfolding return_from_do
return-IsCounted {n} m e h =
    let l = ap (rounds_left n) e in
    let a = h.waited in
    elim (Bool-cases (m.wg == 0)) [
      | inl c ↦ rw c record {
        total = h.total;
        within = omega arith;
        waited = omega (arith, a, l);
        all = λ z. (let b = h.all z in omega (arith, b, l));
        at_end = ground (arith, a, c);
      }
      | inr c ↦ rw c h
    ]

Move-IsCounted : {n : ℕ} {m o : Multitask} → Move m o → IsCounted n m → IsCounted n o
Move-IsCounted (round {m} r i e) h = Round-IsCounted m r i e h
Move-IsCounted (ending {m} before i after ok e) h = end_actor-IsCounted m before i after ok e h
Move-IsCounted (returning {m} e) h = return-IsCounted m e h
Move-IsCounted canceling h = record {
  total = h.total;
  within = h.within;
  waited = h.waited;
  all = h.all;
  at_end = h.at_end;
}

Reached-IsCounted : {b : Bool} {n : ℕ} {m : Multitask} → Reached b n m → IsCounted n m
unfolding new_multitask
Reached-IsCounted at_start = record {
  total = refl;
  within = omega arith;
  waited = omega arith;
  all = λ z. omega arith;
  at_end = refl;
}
Reached-IsCounted (and_then r m) = Move-IsCounted m (Reached-IsCounted r)

-- When Do has returned no actor runs, and n actors have ended or Do returned the error of the Goer.
pub do_waits :
    {b : Bool} {n : ℕ} {m : Multitask}
    → Reached b n m
    → m.progress ≡ returned
    → (length m.running ≡ 0) × ((length m.ended ≡ n) ⊎ ((e : ℕ) × (m.error ≡ some e)))
do_waits {b} {n} {m} r e =
    let h = Reached-IsCounted r in
    let a = h.at_end in
    let x = ap (λ p. running_at_end p m.running) e in
    let l = ap (rounds_left n) e in
    (
      omega (arith, a, x),
      elim (Option-cases m.error) [
        | inl z ↦ inl (let c = h.all z in omega (arith, a, x, c, l))
        | inr z ↦ inr z
      ],
    )
