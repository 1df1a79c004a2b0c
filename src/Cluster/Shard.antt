-- ===== src/Cluster/Shard.antt =====
-- Shard of pkg/activerecord/cluster.go: the choice of the next instance, and the list of instances.
-- A call runs with no other in between, so its CompareAndSwap succeeds. `random` is what rand.Int()
-- returns. The counter stays below the number of instances, so an int32 holds it and its successor.
pub mod Rotation
use activerecord.Prelude.{
  ℕ, zero, suc, ◌+◌, ◌*◌, ◌%◌, List, [], ◌∷◌, ◌++◌, length, get_elem?, Option, none, some, Bool,
  true, false, ◌==◌, if◌then◌else◌, not, ◌&&◌,
}
use activerecord.Go.{Result, ok, err, panic, Bytes}

pub data ServerMode : Type 0 where
  mode_master mode_replica : ServerMode
  mode_other : ℕ → ServerMode

pub record InstanceConfig : Type 0 where
  pub timeout : ℕ
  pub mode : ServerMode
  pub pool_size : ℕ
  pub addr : Bytes

-- `options` is an opaque value.
pub record Instance : Type 0 where
  pub params_id : Bytes
  pub config : InstanceConfig
  pub options : ℕ
  pub offline : Bool

pub record Shard : Type 0 where
  pub masters : List Instance
  pub replicas : List Instance
  pub cur_master : ℕ
  pub cur_replica : ℕ

-- No call here returns an error.
pub data NoError : Type 0 where

-- How the attempts of a call end, with the counter that they leave.
pub data Attempts : Type 0 where
  chosen : ℕ → Instance → Attempts
  exhausted : ℕ → Attempts
  out_of_range : Attempts

-- `for i := 0; i < attempt; i++`
pub attempts : ℕ → List Instance → ℕ → Attempts
attempts zero xs cur = exhausted cur
attempts (suc n) xs cur =
    let next = (cur + 1) % length xs in
    elim (get_elem? xs next) [
      | none ↦ out_of_range
      | some inst ↦ let rest = attempts n xs next in if inst.offline then rest else chosen next inst
    ]

-- What is left after the attempts: any instance, also one that is offline.
pub fallback : List Instance → ℕ → ℕ → Result NoError (Instance × ℕ)
fallback xs random cur = elim (get_elem? xs (random % length xs)) [
  | none ↦ panic
  | some inst ↦ ok (inst, cur)
]

finish : List Instance → ℕ → Attempts → Result NoError (Instance × ℕ)
finish xs random (chosen cur inst) = ok (inst, cur)
finish xs random (exhausted cur) = fallback xs random cur
finish xs random out_of_range = panic

rotate : List Instance → ℕ → ℕ → Result NoError (Instance × ℕ)
rotate xs random cur = finish xs random (attempts (10 * length xs) xs cur)

-- The instance, and the new counter.
pub pick_master : List Instance → ℕ → ℕ → Result NoError (Instance × ℕ)
pick_master [] random cur = panic
pick_master (m ∷ []) random cur = if m.offline then panic else ok (m, cur)
pick_master (m ∷ n ∷ ms) random cur = rotate (m ∷ n ∷ ms) random cur

-- With no replica `rand.Int() % 0` panics.
pub pick_replica : List Instance → ℕ → ℕ → Result NoError (Instance × ℕ)
pick_replica [] random cur = panic
pick_replica (r ∷ []) random cur =
    let picked = rotate (r ∷ []) random cur in if r.offline then picked else ok (r, cur)
pick_replica (r ∷ q ∷ rs) random cur = rotate (r ∷ q ∷ rs) random cur

pub with_master : Shard → Result NoError (Instance × ℕ) → Result NoError (Instance × Shard)
with_master s (ok (inst, cur)) = ok (inst, record s { cur_master = cur })
with_master s (err e) = err e
with_master s panic = panic

with_replica : Shard → Result NoError (Instance × ℕ) → Result NoError (Instance × Shard)
with_replica s (ok (inst, cur)) = ok (inst, record s { cur_replica = cur })
with_replica s (err e) = err e
with_replica s panic = panic

pub next_master : Shard → ℕ → Result NoError (Instance × Shard)
next_master s random = with_master s (pick_master s.masters random s.cur_master)

pub next_replica : Shard → ℕ → Result NoError (Instance × Shard)
next_replica s random = with_replica s (pick_replica s.replicas random s.cur_replica)

abbrev pub instances : Shard → List Instance
instances s = s.masters ++ s.replicas
