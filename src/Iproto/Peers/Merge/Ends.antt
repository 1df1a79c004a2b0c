-- ===== src/Iproto/Peers/Merge/Ends.antt =====
-- The merge ends, within as many turns as there are pools.
use activerecord.Prelude.{
  ℕ, zero, suc, ◌+◌, ◌-◌, ◌≤◌, ◌<◌, List, ◌++◌, length, Option, some, Bool, true, false, ltb,
  ltb→lt, if◌then◌else◌, ◌≡◌, inl, inr, refl, subst, Option-cases, Bool-cases, arith,
}
use activerecord.Iproto.Peers.{Pool, Order, before, equal, behind, Peers}
use activerecord.Iproto.Peers.Merge.{
  Merge, turn, run, start, merge, Merged, finish, by_order, compare_at, remove_one, keep_one,
  dedup_or_create, is_dup, reset_peers, no_merge, pools_of, store,
}

-- What is left to do.
left : Merge → ℕ
left s = (s.i_end - s.dp) + (s.j_end - s.mid)

remove_one-left : (s : Merge) → s.mid < s.j_end → left (remove_one s) < left s
unfolding left remove_one
remove_one-left s h = omega (arith, h)

dedup_or_create-left : (s : Merge) → s.dp < s.i_end → left (dedup_or_create s) < left s
unfolding left dedup_or_create
dedup_or_create-left s h = elim (Bool-cases (is_dup s)) [
  | inl e ↦ rw e (omega (arith, h))
  | inr e ↦ rw e (omega (arith, h))
]

by_order-left :
    (o : Order) (s : Merge) → s.dp < s.i_end → s.mid < s.j_end → left (by_order o s) < left s
unfolding by_order keep_one left
by_order-left before s h k = remove_one-left s k
by_order-left equal s h k = omega (arith, h, k)
by_order-left behind s h k = dedup_or_create-left s h

turn-left : (s t : Merge) → turn s ≡ some t → left t < left s
unfolding turn
turn-left s t e = elim (Bool-cases (ltb s.mid s.j_end)) [
  | inl b ↦ elim (Bool-cases (ltb s.dp s.i_end)) [
    | inl a ↦
        let e' = rw b at (rw a at e) in
        subst (λ x. left x < left s) (cc)
          (by_order-left (compare_at s) s (ltb→lt _ _ a) (ltb→lt _ _ b))
    | inr a ↦
        let e' = rw b at (rw a at e) in
        subst (λ x. left x < left s) (cc) (remove_one-left s (ltb→lt _ _ b))
  ]
  | inr b ↦ elim (Bool-cases (ltb s.dp s.i_end)) [
    | inl a ↦
        let e' = rw b at (rw a at e) in
        subst (λ x. left x < left s) (cc) (dedup_or_create-left s (ltb→lt _ _ a))
    | inr a ↦ (let e' = rw b at (rw a at e) in cc)
  ]
]

run_ends : (fuel : ℕ) (s : Merge) → left s ≤ fuel → (t : Merge) × (run fuel s ≡ some t)
unfolding run
run_ends zero s h = elim (Option-cases (turn s)) [
  | inl e ↦ (s, rw (e, run) refl)
  | inr (t, e) ↦ absurd (let k = turn-left s t e in omega (arith, h, k))
]
run_ends (suc fuel) s h = elim (Option-cases (turn s)) [
  | inl e ↦ (s, rw (e, run) refl)
  | inr (t, e) ↦
      let k = turn-left s t e in
      let (u, r) = run_ends fuel t (omega (arith, h, k)) in (u, rw (e, run) r)
]

merge_ends : (dst src : List Pool) → (m : Merged) × (merge dst src ≡ some m)
unfolding merge left start
merge_ends dst src =
    let (s, e) = run_ends (length dst + length src) (start dst src) (omega arith) in
    (finish s, rw (e, merge) refl)

if_some :
    {A : Type 0} (b : Bool) (x : A) (o : Option A)
    → (r : A) × (o ≡ some r)
    → (r : A) × ((if b then some x else o) ≡ some r)
if_some true x o h = (x, refl)
if_some false x o h = h

-- Reset and ResetAndDisableInserted return for any cluster and any slice of pools: the loops of the
-- merge end within as many turns as there are pools.
pub reset_peers_ends :
    (c : Peers) (ps : List Pool) (disable_inserted : Bool)
    → (r : Peers × Merged) × (reset_peers c ps disable_inserted ≡ some r)
unfolding reset_peers
reset_peers_ends c ps d =
    if_some c.terminated (c, no_merge) _
      (let (m, e) = merge_ends (c.peers ++ pools_of c.disabled) ps in
        ((store c d m, m), rw (e, reset_peers) refl))
