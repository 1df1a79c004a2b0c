-- ===== src/Iproto/Peers/Merge/Keeps.antt =====
-- The merge makes up no pool and gives none out twice.
use activerecord.Prelude.{
  ℕ, zero, suc, ◌+◌, ◌-◌, ◌≤◌, ◌<◌, List, [], ◌∷◌, length, take, some, Bool, ltb, ltb→lt, ◌≡◌, refl,
  ap, subst, ◌∙◌, inl, inr, Option-cases, Bool-cases, arith,
}
use activerecord.Iproto.Peers.{Pool, Order, before, equal, behind}
use activerecord.Iproto.Peers.Merge.{
  Merge, turn, run, start, merge, Merged, finish, slice, by_order, compare_at, remove_one, keep_one,
  dedup_or_create, is_dup, sort_peers,
}
use activerecord.Iproto.Peers.Merge.Counts.{
  count, count-append, count-swap, count-move_left, count-sort_peers, count-take-drop, count-ends,
}

-- The order of the indexes, and the number of pools that pass a test.
record Ordered (f : Pool → Bool) (n : ℕ) (s : Merge) : Type 0 where
  pub left_lem : s.dp ≤ s.i_end
  pub made_lem : s.i_end ≤ s.cr
  pub mid_lem : s.cr ≤ s.mid
  pub right_lem : s.mid ≤ s.j_end
  pub end_lem : s.j_end ≤ s.rm
  pub count_lem : count f s.ps ≡ n

module _ (f : Pool → Bool) (n : ℕ) where
  remove_one-Ordered : (s : Merge) → Ordered f n s → s.mid < s.j_end → Ordered f n (remove_one s)
  unfolding remove_one
  remove_one-Ordered s o h = record {
    left_lem = o.left_lem;
    made_lem = o.made_lem;
    mid_lem = o.mid_lem;
    right_lem = omega (arith, h);
    end_lem = (let e = o.end_lem in omega (arith, e));
    count_lem = count-swap f s.ps (s.rm - 1) (s.j_end - 1) ∙ o.count_lem;
  }

  dedup_or_create-Ordered :
      (s : Merge) → Ordered f n s → s.dp < s.i_end → Ordered f n (dedup_or_create s)
  unfolding dedup_or_create
  dedup_or_create-Ordered s o h = elim (Bool-cases (is_dup s)) [
    | inl e ↦ rw e record {
      left_lem = omega (arith, h);
      made_lem = o.made_lem;
      mid_lem = o.mid_lem;
      right_lem = o.right_lem;
      end_lem = o.end_lem;
      count_lem = count-move_left f s.ps s.dp (s.i_end - 1) (omega (arith, h)) ∙ o.count_lem;
    }
    | inr e ↦ rw e record {
      left_lem = omega (arith, h);
      made_lem = (let m = o.made_lem in omega (arith, m));
      mid_lem = (let m = o.mid_lem in omega (arith, m));
      right_lem = o.right_lem;
      end_lem = o.end_lem;
      count_lem = count-swap f s.ps (s.cr - 1) (s.i_end - 1) ∙ o.count_lem;
    }
  ]

  by_order-Ordered :
      (x : Order) (s : Merge)
      → Ordered f n s
      → s.dp < s.i_end
      → s.mid < s.j_end
      → Ordered f n (by_order x s)
  unfolding by_order keep_one
  by_order-Ordered before s o h k = remove_one-Ordered s o k
  by_order-Ordered equal s o h k = record {
    left_lem = omega (arith, h);
    made_lem = (let m = o.made_lem in omega (arith, m));
    mid_lem = o.mid_lem;
    right_lem = omega (arith, k);
    end_lem = (let e = o.end_lem in omega (arith, e));
    count_lem = o.count_lem;
  }
  by_order-Ordered behind s o h k = dedup_or_create-Ordered s o h

  turn-Ordered : (s t : Merge) → turn s ≡ some t → Ordered f n s → Ordered f n t
  unfolding turn
  turn-Ordered s t e o = elim (Bool-cases (ltb s.mid s.j_end)) [
    | inl b ↦ elim (Bool-cases (ltb s.dp s.i_end)) [
      | inl a ↦
          let e' = rw b at (rw a at e) in
          subst (Ordered f n) (cc)
            (by_order-Ordered (compare_at s) s o (ltb→lt _ _ a) (ltb→lt _ _ b))
      | inr a ↦
          let e' = rw b at (rw a at e) in
          subst (Ordered f n) (cc) (remove_one-Ordered s o (ltb→lt _ _ b))
    ]
    | inr b ↦ elim (Bool-cases (ltb s.dp s.i_end)) [
      | inl a ↦
          let e' = rw b at (rw a at e) in
          subst (Ordered f n) (cc) (dedup_or_create-Ordered s o (ltb→lt _ _ a))
      | inr a ↦ (let e' = rw b at (rw a at e) in cc)
    ]
  ]

  run-Ordered : (fuel : ℕ) (s t : Merge) → run fuel s ≡ some t → Ordered f n s → Ordered f n t
  unfolding run
  run-Ordered zero s t h o = elim (Option-cases (turn s)) [
    | inl e ↦ (let h' = rw (e, run) at h in subst (Ordered f n) (cc) o)
    | inr (u, e) ↦ (let h' = rw (e, run) at h in cc)
  ]
  run-Ordered (suc fuel) s t h o = elim (Option-cases (turn s)) [
    | inl e ↦ (let h' = rw (e, run) at h in subst (Ordered f n) (cc) o)
    | inr (u, e) ↦ run-Ordered fuel u t (rw (e, run) at h) (turn-Ordered s u e o)
  ]

start-Ordered :
    (f : Pool → Bool) (dst src : List Pool) → Ordered f (count f dst + count f src) (start dst src)
unfolding start
start-Ordered f dst src = record {
  left_lem = omega arith;
  made_lem = omega arith;
  mid_lem = omega arith;
  right_lem = omega arith;
  end_lem = omega arith;
  count_lem =
      (let a = count-append f (sort_peers src) (sort_peers dst) in
        let b = count-sort_peers f src in let c = count-sort_peers f dst in omega (arith, a, b, c));
}

take-take : {A : Type 0} (a b : ℕ) (xs : List A) → a ≤ b → take a (take b xs) ≡ take a xs
take-take zero b xs h = refl
take-take (suc a) zero xs h = absurd (omega (arith, h))
take-take (suc a) (suc b) [] h = refl
take-take (suc a) (suc b) (x ∷ xs) h = ap (λ ys. x ∷ ys) (take-take a b xs (omega (arith, h)))

finish-count :
    (f : Pool → Bool) (n : ℕ) (s : Merge)
    → Ordered f n s
    → count f ((finish s).result) + count f ((finish s).removed) + count f ((finish s).ignored) ≤ n
unfolding finish slice
finish-count f n s o =
    let l = o.left_lem in
    let m = o.made_lem in
    let k = o.mid_lem in
    let r = o.right_lem in
    let e = o.end_lem in
    let c = o.count_lem in
    let a = count-take-drop f s.rm s.ps in
    let b = count-ends f s.dp s.cr (take s.rm s.ps) (omega (arith, l, m)) in
    let t = ap (count f) (take-take s.dp s.rm s.ps (omega (arith, l, m, k, r, e))) in
    omega (arith, a, b, c, t)

-- However often a pool stands in the two lists that are merged, the result, the removed and the ignored
-- pools together hold it not more often. (The test can be whether a pool is the one in question.)
pub merge-count :
    (f : Pool → Bool) (dst src : List Pool) (m : Merged)
    → merge dst src ≡ some m
    → count f m.result + count f m.removed + count f m.ignored ≤ count f dst + count f src
unfolding merge
merge-count f dst src m h = elim (Option-cases (run (length dst + length src) (start dst src))) [
  | inl e ↦ (let h' = rw (e, merge) at h in cc)
  | inr (s, e) ↦
      let h' = rw (e, merge) at h in
      let q : finish s ≡ m = cc in
      subst
        (λ (x : Merged).
          count f x.result + count f x.removed + count f x.ignored ≤ count f dst + count f src)
        q (finish-count f _ s (run-Ordered f _ _ (start dst src) s e (start-Ordered f dst src)))
]
