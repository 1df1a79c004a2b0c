-- ===== src/Iproto/Peers/Merge/Counts.antt =====
-- Pools counted by a test: swaps, moves and the sort keep the number.
use activerecord.Prelude.{
  ℕ, zero, suc, ◌+◌, ◌-◌, ◌≤◌, List, [], ◌∷◌, ◌++◌, get_elem?, set, take, drop, some, Bool, true,
  false, ◌≡◌, refl, sym, ap, subst, ◌∙◌, inl, inr, Option-cases, Bool-cases, arith,
}
use activerecord.Iproto.Peers.{Pool, cmp_remote_addr}
use activerecord.Iproto.Peers.Merge.{swap, move_left, place, sort_peers, is_before}

pub one_if : Bool → ℕ
one_if true = 1
one_if false = 0

pub count : (Pool → Bool) → List Pool → ℕ
count f [] = 0
count f (p ∷ ps) = one_if (f p) + count f ps

minus_zero : (i : ℕ) → i - 0 ≡ i
minus_zero i = omega arith

minus_suc : (i d : ℕ) → suc i - suc d ≡ i - d
minus_suc i d = omega arith

module _ (f : Pool → Bool) where
  pub count-append : (ps qs : List Pool) → count f (ps ++ qs) ≡ count f ps + count f qs
  unfolding count
  count-append [] qs = omega arith
  count-append (p ∷ ps) qs = omega (arith, count-append ps qs)

  count-set :
      (ps : List Pool) (i : ℕ) (p v : Pool)
      → get_elem? ps i ≡ some p
      → count f (set ps i v) + one_if (f p) ≡ count f ps + one_if (f v)
  unfolding count
  count-set [] i p v h = cc
  count-set (q ∷ ps) zero p v h =
      let e : q ≡ p = cc in
      subst
        (λ x.
          (one_if (f v) + count f ps) + one_if (f x) ≡ (one_if (f q) + count f ps) + one_if (f v))
        e (omega arith)
  count-set (q ∷ ps) (suc i) p v h = omega (arith, count-set ps i p v h)

  get-set :
      (ps : List Pool) (a b : ℕ) (q : Pool)
      → get_elem? ps b ≡ some q
      → get_elem? (set ps a q) b ≡ some q
  get-set [] a b q h = h
  get-set (x ∷ ps) zero zero q h = refl
  get-set (x ∷ ps) zero (suc b) q h = h
  get-set (x ∷ ps) (suc a) zero q h = h
  get-set (x ∷ ps) (suc a) (suc b) q h = get-set ps a b q h

  pub count-swap : (ps : List Pool) (a b : ℕ) → count f (swap ps a b) ≡ count f ps
  unfolding swap
  count-swap ps a b = elim (Option-cases (get_elem? ps a)) [
    | inl e ↦ rw (e, swap) refl
    | inr (p, e) ↦ elim (Option-cases (get_elem? ps b)) [
      | inl e' ↦ rw (e, swap) (rw e' refl)
      | inr (q, e') ↦
          let x = count-set ps a p q e in
          let y = count-set (set ps a q) b q p (get-set ps a b q e') in
          rw (e, swap) (rw e' (omega (arith, x, y)))
    ]
  ]

  count-without :
      (ps : List Pool) (i : ℕ) (p : Pool)
      → get_elem? ps i ≡ some p
      → one_if (f p) + count f (take i ps ++ drop (suc i) ps) ≡ count f ps
  unfolding count
  count-without [] i p h = cc
  count-without (q ∷ ps) zero p h =
      let e : q ≡ p = cc in
      subst (λ x. one_if (f x) + count f ps ≡ one_if (f q) + count f ps) e refl
  count-without (q ∷ ps) (suc i) p h = omega (arith, count-without ps i p h)

  moved :
      (ps : List Pool) (dp i : ℕ) (p : Pool)
      → dp ≤ i
      → get_elem? ps i ≡ some p
      → count f (take dp ps ++ (p ∷ (take (i - dp) (drop dp ps) ++ drop (suc i) ps))) ≡ count f ps
  unfolding count
  moved ps zero i p h e =
      subst (λ k. one_if (f p) + count f (take k ps ++ drop (suc i) ps) ≡ count f ps)
        (sym (minus_zero i)) (count-without ps i p e)
  moved [] (suc dp) i p h e = cc
  moved (q ∷ ps) (suc dp) zero p h e = absurd (omega (arith, h))
  moved (q ∷ ps) (suc dp) (suc i) p h e =
      let t = moved ps dp i p (omega (arith, h)) e in
      subst
        (λ k.
          one_if (f q) + count f (take dp ps ++ (p ∷ (take k (drop dp ps) ++ drop (suc i) ps)))
          ≡ one_if (f q) + count f ps)
        (sym (minus_suc i dp)) (ap (λ n. one_if (f q) + n) t)

  pub count-move_left :
      (ps : List Pool) (dp i : ℕ) → dp ≤ i → count f (move_left ps dp i) ≡ count f ps
  unfolding move_left
  count-move_left ps dp i h = elim (Option-cases (get_elem? ps i)) [
    | inl e ↦ rw (e, move_left) refl
    | inr (p, e) ↦ rw (e, move_left) (moved ps dp i p h e)
  ]

  count-place : (p : Pool) (ps : List Pool) → count f (place p ps) ≡ one_if (f p) + count f ps
  unfolding count place
  count-place p [] = refl
  count-place p (q ∷ ps) = elim (Bool-cases (is_before (cmp_remote_addr q p))) [
    | inl e ↦ rw e (let t = count-place p ps in omega (arith, t))
    | inr e ↦ rw e refl
  ]

  pub count-sort_peers : (ps : List Pool) → count f (sort_peers ps) ≡ count f ps
  unfolding count sort_peers
  count-sort_peers [] = refl
  count-sort_peers (p ∷ ps) =
      count-place p (sort_peers ps) ∙ ap (λ n. one_if (f p) + n) (count-sort_peers ps)

  pub count-take-drop :
      (c : ℕ) (ps : List Pool) → count f (take c ps) + count f (drop c ps) ≡ count f ps
  unfolding count
  count-take-drop zero ps = omega arith
  count-take-drop (suc c) [] = refl
  count-take-drop (suc c) (p ∷ ps) = omega (arith, count-take-drop c ps)

  pub count-ends :
      (a b : ℕ) (ps : List Pool) → a ≤ b → count f (take a ps) + count f (drop b ps) ≤ count f ps
  unfolding count
  count-ends zero zero [] h = omega arith
  count-ends zero (suc b) [] h = omega arith
  count-ends (suc a) zero [] h = omega arith
  count-ends (suc a) (suc b) [] h = omega arith
  count-ends zero zero (p ∷ ps) h = omega arith
  count-ends zero (suc b) (p ∷ ps) h = omega (arith, count-ends zero b ps (omega arith))
  count-ends (suc a) zero (p ∷ ps) h = absurd (omega (arith, h))
  count-ends (suc a) (suc b) (p ∷ ps) h = omega (arith, count-ends a b ps (omega (arith, h)))
