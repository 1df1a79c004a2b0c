-- ===== src/Sync/Multitask.antt =====
-- pkg/iproto/syncutil/multitask.go: n actors that run at the same time, and Do, which waits for them. A
-- start of a goroutine is one step, and so are the end of an actor and each part of Do; child Steps has
-- the steps in any order. What the Goer starts, and what an actor returns, the steps choose; n is not negative.
pub mod Steps
pub mod Waits
use activerecord.Prelude.{
  ℕ, suc, ◌-◌, List, [], ◌∷◌, ◌++◌, Option, none, some, Bool, true, false, not, ◌||◌, ltb, ◌==◌,
  if◌then◌else◌,
}

-- Do: in its loop, at this index; in wg.Wait; after its return.
pub data Progress : Type 0 where
  starting : ℕ → Progress
  waiting returned : Progress

-- `running` has the indexes of the actors that run, `ended` of those that ended; `canceled` is the state
-- of the context that they get.
pub record Multitask : Type 0 where
  pub continue_on_error : Bool
  pub n : ℕ
  pub progress : Progress
  pub wg : ℕ
  pub running : List ℕ
  pub ended : List ℕ
  pub canceled : Bool
  pub error : Option ℕ

unfoldable pub new_multitask : Bool → ℕ → Multitask
new_multitask continue_on_error n = record {
  continue_on_error = continue_on_error;
  n = n;
  progress = starting 0;
  wg = n;
  running = [];
  ended = [];
  canceled = false;
  error = none;
}

-- One round of the loop, at index i: the Goer starts the actor, or returns an error.
unfoldable pub start_actor : Option ℕ → ℕ → Multitask → Multitask
start_actor none i m = record m { progress = starting (suc i); running = i ∷ m.running }
start_actor (some e) i m = record m {
  progress = waiting;
  wg = m.wg - (m.n - i);
  canceled = m.canceled || not m.continue_on_error;
  error = some e;
}

unfoldable pub next_round : Option ℕ → ℕ → Multitask → Multitask
next_round r i m = if ltb i m.n then start_actor r i m else record m { progress = waiting }

-- The actor of index i, behind `before` and in front of `after`, returns `ok`.
unfoldable pub end_actor : List ℕ → ℕ → List ℕ → Bool → Multitask → Multitask
end_actor before i after ok m = record m {
  running = before ++ after;
  ended = i ∷ m.ended;
  wg = m.wg - 1;
  canceled = m.canceled || not ok;
}

-- The end of wg.Wait, and the deferred cancel.
unfoldable pub return_from_do : Multitask → Multitask
return_from_do m = if m.wg == 0 then record m { progress = returned; canceled = true } else m
