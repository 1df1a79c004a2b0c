-- ===== src/Cluster/Shard/Rotation.antt =====
-- The rotation over the instances of a shard.
use activerecord.Prelude.{
  ℕ, zero, suc, ◌+◌, ◌-◌, ◌*◌, ◌%◌, ◌≤◌, ◌<◌, List, [], ◌∷◌, length, get_elem?, some, true, false,
  ◌≡◌, refl, sym, ◌∙◌, arith, Bool-cases, inl, inr, subst,
}
use activerecord.Go.{ok}
use activerecord.Cluster.Shard.{
  Instance, Shard, chosen, attempts, finish, rotate, pick_master, pick_replica, with_master,
  with_replica, next_master, next_replica, instances,
}
use native.Mathlib.Nat.{mod-add-mod, mod-lt, add-mod_right, mod-eq_of_lt}

pub get_elem?-lt :
    {A : Type 0} (xs : List A) (i : ℕ) → i < length xs → (x : A) × (get_elem? xs i ≡ some x)
get_elem?-lt [] i h = absurd (omega arith)
get_elem?-lt (x ∷ xs) zero h = (x, refl)
get_elem?-lt (x ∷ xs) (suc i) h = get_elem?-lt xs i (omega arith)

lt-get_elem? : {A : Type 0} (xs : List A) (i : ℕ) (x : A) → get_elem? xs i ≡ some x → i < length xs
lt-get_elem? [] i x h = absurd (cc)
lt-get_elem? (y ∷ xs) zero x h = omega arith
lt-get_elem? (y ∷ xs) (suc i) x h = omega (arith, lt-get_elem? xs i x h)

-- An instance of the list that is online, at its place.
pub record Online (xs : List Instance) (i : ℕ) (inst : Instance) : Type 0 where
  pub there : get_elem? xs i ≡ some inst
  pub up : inst.offline ≡ false

step_mod : (cur d n : ℕ) → ((cur + 1) % n + 1 + d) % n ≡ (cur + 1 + suc d) % n
step_mod cur d n =
    let left : (cur + 1) % n + 1 + d ≡ (cur + 1) % n + (1 + d) = omega arith in
    let right : cur + 1 + suc d ≡ cur + 1 + (1 + d) = omega arith in
    rw (left, right) (mod-add-mod (cur + 1) n (1 + d))

module _ (n cur : ℕ) (xs : List Instance) (inst : Instance)
    (here : get_elem? xs ((cur + 1) % length xs) ≡ some inst) where
  attempts_online :
      inst.offline ≡ false → attempts (suc n) xs cur ≡ chosen ((cur + 1) % length xs) inst
  unfolding attempts
  attempts_online up = rw (here, attempts) (rw up)

  attempts_offline :
      inst.offline ≡ true → attempts (suc n) xs cur ≡ attempts n xs ((cur + 1) % length xs)
  unfolding attempts
  attempts_offline down = rw (here, attempts) (rw down)

Found : ℕ → List Instance → ℕ → Type 0
Found n xs cur =
    (next : ℕ) × (found : Instance) × (attempts n xs cur ≡ chosen next found) × Online xs next found

-- The instance before is offline: the search goes on from it.
further :
    (d n cur : ℕ) (xs : List Instance) (inst m : Instance)
    → get_elem? xs ((cur + 1) % length xs) ≡ some m
    → m.offline ≡ true
    → d < suc n
    → Online xs ((cur + 1 + d) % length xs) inst
    → ((k : ℕ)
        → k < n
        → Online xs (((cur + 1) % length xs + 1 + k) % length xs) inst
        → Found n xs ((cur + 1) % length xs))
    → Found (suc n) xs cur
unfolding Found
further zero n cur xs inst m here down h on ih =
    let same : cur + 1 + 0 ≡ cur + 1 = omega arith in
    let twice : get_elem? xs ((cur + 1) % length xs) ≡ some inst =
      subst (λ x. get_elem? xs (x % length xs) ≡ some inst) same on.there in
    absurd (cc (on.up))
further (suc d) n cur xs inst m here down h on ih =
    rw (attempts_offline n cur xs m here down)
      (ih d (omega arith) (subst (λ x. Online xs x inst) (sym (step_mod cur d (length xs))) on))

-- If the instance d places further on is online, an online instance is chosen within d + 1 attempts.
attempts_find :
    (d n cur : ℕ) (xs : List Instance) (inst : Instance)
    → 0 < length xs
    → d < n
    → Online xs ((cur + 1 + d) % length xs) inst
    → Found n xs cur
unfolding Found
attempts_find d zero cur xs inst pos h on = absurd (omega arith)
attempts_find d (suc n) cur xs inst pos h on =
    let next = (cur + 1) % length xs in
    let (m, here) = get_elem?-lt xs next (mod-lt (cur + 1) pos) in
    elim (Bool-cases m.offline) [
      | inl down ↦
          further d n cur xs inst m here down h on
            (λ k hk on'. attempts_find k n next xs inst pos hk on')
      | inr up ↦ (next, m, attempts_online n cur xs m here up, record { there = here; up = up })
    ]

rotate-Online :
    (xs : List Instance) (i : ℕ) (inst : Instance) (random cur : ℕ)
    → Online xs i inst
    → cur < length xs
    → (found : Instance) × (next : ℕ) × (rotate xs random cur ≡ ok (found, next))
      × Online xs next found
unfolding rotate finish Found
rotate-Online xs i inst random cur on h =
    let in_range = lt-get_elem? xs i inst on.there in
    let n = length xs in
    let d = i + n - (cur + 1) in
    let around : (cur + 1 + d) % n ≡ i =
      let sum : cur + 1 + d ≡ i + n = omega arith in
      rw sum (add-mod_right i n ∙ mod-eq_of_lt in_range) in
    let (next, found, e, on') =
      attempts_find d (10 * n) cur xs inst (omega arith) (omega arith)
        (subst (λ x. Online xs x inst) (sym around) on) in
    (found, next, rw (e, finish), on')

pick_master-Online :
    (xs : List Instance) (i : ℕ) (inst : Instance) (random cur : ℕ)
    → Online xs i inst
    → cur < length xs
    → (found : Instance) × (next : ℕ) × (j : ℕ) × (pick_master xs random cur ≡ ok (found, next))
      × Online xs j found
      × (next < length xs)
unfolding pick_master
pick_master-Online [] i inst random cur on h = absurd (omega arith)
pick_master-Online (m ∷ []) zero inst random cur on h =
    let same : m.offline ≡ false = ground (arith, on.there, on.up) in
    (m, cur, 0, rw same, record { there = refl; up = same }, h)
pick_master-Online (m ∷ []) (suc i) inst random cur on h = absurd (cc (on.there))
pick_master-Online (m ∷ n ∷ ms) i inst random cur on h =
    let (found, next, e, on') = rotate-Online (m ∷ n ∷ ms) i inst random cur on h in
    (found, next, next, e, on', lt-get_elem? (m ∷ n ∷ ms) next found on'.there)

-- While some master of the shard is online NextMaster does not panic: it returns a master that is
-- online, and keeps the counter in range and the instances as they were.
pub next_master-Online :
    (s : Shard) (i : ℕ) (inst : Instance) (random : ℕ)
    → Online s.masters i inst
    → s.cur_master < length s.masters
    → (found : Instance) × (s' : Shard) × (j : ℕ) × (next_master s random ≡ ok (found, s'))
      × Online s.masters j found
      × (s'.cur_master < length s'.masters)
      × (instances s' ≡ instances s)
unfolding next_master with_master
next_master-Online s i inst random on h =
    let (found, next, j, e, on', b) =
      pick_master-Online s.masters i inst random s.cur_master on h in
    (found, record s { cur_master = next }, j, rw (e, with_master), on', b, refl)

pick_replica-Online :
    (xs : List Instance) (i : ℕ) (inst : Instance) (random cur : ℕ)
    → Online xs i inst
    → cur < length xs
    → (found : Instance) × (next : ℕ) × (j : ℕ) × (pick_replica xs random cur ≡ ok (found, next))
      × Online xs j found
      × (next < length xs)
unfolding pick_replica
pick_replica-Online [] i inst random cur on h = absurd (omega arith)
pick_replica-Online (m ∷ []) zero inst random cur on h =
    let same : m.offline ≡ false = ground (arith, on.there, on.up) in
    (m, cur, 0, rw same, record { there = refl; up = same }, h)
pick_replica-Online (m ∷ []) (suc i) inst random cur on h = absurd (cc (on.there))
pick_replica-Online (m ∷ n ∷ ms) i inst random cur on h =
    let (found, next, e, on') = rotate-Online (m ∷ n ∷ ms) i inst random cur on h in
    (found, next, next, e, on', lt-get_elem? (m ∷ n ∷ ms) next found on'.there)

-- While some replica of the shard is online NextReplica does not panic: it returns a replica that is
-- online, and keeps the counter in range and the instances as they were.
pub next_replica-Online :
    (s : Shard) (i : ℕ) (inst : Instance) (random : ℕ)
    → Online s.replicas i inst
    → s.cur_replica < length s.replicas
    → (found : Instance) × (s' : Shard) × (j : ℕ) × (next_replica s random ≡ ok (found, s'))
      × Online s.replicas j found
      × (s'.cur_replica < length s'.replicas)
      × (instances s' ≡ instances s)
unfolding next_replica with_replica
next_replica-Online s i inst random on h =
    let (found, next, j, e, on', b) =
      pick_replica-Online s.replicas i inst random s.cur_replica on h in
    (found, record s { cur_replica = next }, j, rw (e, with_replica), on', b, refl)

rotates_lem :
    (xs : List Instance) (cur random : ℕ) (inst : Instance)
    → 2 ≤ length xs
    → Online xs ((cur + 1) % length xs) inst
    → pick_master xs random cur ≡ ok (inst, (cur + 1) % length xs)
unfolding pick_master rotate finish
rotates_lem [] cur random inst h on = absurd (omega arith)
rotates_lem (m ∷ []) cur random inst h on = absurd (omega arith)
rotates_lem (m ∷ n ∷ ms) cur random inst h on =
    let xs = m ∷ n ∷ ms in
    let ten : 10 * length xs ≡ suc (10 * length xs - 1) = omega arith in
    rw (ten, attempts_online (10 * length xs - 1) cur xs inst on.there on.up)

-- The rotation: with two masters or more, the one behind the last one chosen is next, if it is online.
pub next_master_rotates :
    (s : Shard) (random : ℕ) (inst : Instance)
    → 2 ≤ length s.masters
    → Online s.masters ((s.cur_master + 1) % length s.masters) inst
    → next_master s random
      ≡ ok (inst, record s { cur_master = (s.cur_master + 1) % length s.masters })
unfolding next_master
next_master_rotates s random inst h on =
    rw (rotates_lem s.masters s.cur_master random inst h on) (unfold with_master in refl)
