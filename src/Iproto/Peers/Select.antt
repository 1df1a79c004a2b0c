-- ===== src/Iproto/Peers/Select.antt =====
-- The round robin over the peers of a cluster.
use activerecord.Prelude.{
  ℕ, zero, suc, ◌+◌, ◌<◌, ◌%◌, ◌^◌, List, [], ◌∷◌, length, get_elem?, some, ◌≡◌, ◌≢◌, refl, ap,
  arith,
}
use activerecord.Iproto.Peers.{Pool, Peers, select}

in_range : {A : Type 0} (xs : List A) (i : ℕ) → i < length xs → (x : A) × (get_elem? xs i ≡ some x)
in_range [] i h = absurd (omega (arith, h))
in_range (x ∷ xs) zero h = (x, refl)
in_range (x ∷ xs) (suc i) h = in_range xs i (omega (arith, h))

mod_mod : (x : ℕ) → x % 2 ^ 32 % 2 ^ 31 ≡ x % 2 ^ 31
mod_mod x = omega arith

-- Whatever the counter, wrapped around or not: if there are peers, the round robin gives one of them,
-- at a place that is the new counter without its sign, modulo their number; and the counter goes on
-- by one, modulo 2^32.
pub select_lem :
    (r : ℕ) (c : Peers)
    → c.peers ≢ []
    → (n : ℕ) × (p : Pool) × (length c.peers ≡ suc n)
      × (get_elem? c.peers ((r + 1) % 2 ^ 31 % suc n) ≡ some p)
      × (select r c ≡ ((r + 1) % 2 ^ 32, some p))
unfolding select
select_lem r c h =
    elim (c.peers)
        as (λ ps.
          ps ≢ []
          → (n : ℕ) × (p : Pool) × (length ps ≡ suc n)
            × (get_elem? ps ((r + 1) % 2 ^ 31 % suc n) ≡ some p)
            × (select r (record c { peers = ps }) ≡ ((r + 1) % 2 ^ 32, some p))) [
              | [] ↦ λ k. absurd (k refl)
              | q ∷ qs ↦ λ k.
                  let (p, e) =
                    in_range (q ∷ qs) ((r + 1) % 2 ^ 31 % suc (length qs)) (omega arith) in
                  (length qs, p, refl, e, rw (mod_mod (r + 1)) (ap (λ o. ((r + 1) % 2 ^ 32, o)) e))
            ]
      h
