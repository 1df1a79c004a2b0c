-- ===== src/Iproto/Store.antt =====
-- pkg/iproto/iproto/pending.go: the callbacks of calls that wait for an answer. The methods hold the
-- store's mutex while they change it, so each is one step; a callback is called after the step. A
-- channel is a number; `closed` has those that were closed.
pub mod Map
pub mod Push
pub mod Laws
pub mod Entries
use activerecord.Prelude.{
  ℕ, zero, suc, ◌+◌, ◌*◌, ◌%◌, ◌^◌, List, [], ◌∷◌, length, map, Option, none, some, Bool, true,
  false, ◌==◌, if◌then◌else◌,
}

-- A Go map as a list of its entries; a key stands in it once, by the invariant of Laws.
module _ {C : Type 0} where
  unfoldable pub lookup : ℕ → List (ℕ × C) → Option C
  lookup k [] = none
  lookup k ((j, cb) ∷ m) = if j == k then some cb else lookup k m

  unfoldable pub delete : ℕ → List (ℕ × C) → List (ℕ × C)
  delete k [] = []
  delete k ((j, cb) ∷ m) = if j == k then delete k m else (j, cb) ∷ delete k m

pub record Store (C : Type 0) : Type 0 where
  pub hash : List (ℕ × C)
  pub sync : ℕ
  pub emptied : Option ℕ
  pub closed : List ℕ
  pub channels : ℕ

-- What `empty` returns: the channel that is closed from the start, or one of the store.
pub data Channel : Type 0 where
  closed_channel : Channel
  channel : ℕ → Channel

abbrev pub code : ℕ → ℕ → ℕ
code method sync = method * 2 ^ 32 + sync

abbrev pub next_sync : ℕ → ℕ
next_sync sync = (sync + 1) % 2 ^ 32

module _ {C : Type 0} where
  unfoldable pub new_store : Store C
  new_store = record { hash = []; sync = 0; emptied = none; closed = []; channels = 0 }

  -- The loop of `push` on fuel: the first sync id behind `sync` whose code is free.
  unfoldable pub free_sync : ℕ → ℕ → ℕ → List (ℕ × C) → Option ℕ
  free_sync zero method sync hash = none
  free_sync (suc fuel) method sync hash = elim (lookup (code method (next_sync sync)) hash) [
    | none ↦ some (next_sync sync)
    | some cb ↦ free_sync fuel method (next_sync sync) hash
  ]

  unfoldable pub add_entry : Store C → ℕ → C → ℕ → Store C × ℕ
  add_entry s method cb sync =
      (record s { hash = (code method sync, cb) ∷ s.hash; sync = sync }, sync)

  -- One round more than there are entries is enough (Push).
  unfoldable pub push : Store C → ℕ → C → Option (Store C × ℕ)
  push s method cb = elim (free_sync (length s.hash + 1) method s.sync s.hash) [
    | none ↦ none
    | some sync ↦ some (add_entry s method cb sync)
  ]

  unfoldable pub signal : Store C → Option ℕ → Store C
  signal s none = s
  signal s (some ch) = record s { emptied = none; closed = ch ∷ s.closed }

  unfoldable pub on_emptied : Store C → Store C
  on_emptied s = signal s s.emptied

  unfoldable pub signal_if_empty : List (ℕ × C) → Store C → Store C
  signal_if_empty [] s = on_emptied s
  signal_if_empty (e ∷ m) s = s

  -- The callback that is called with the answer, if there is one, is the second result.
  unfoldable pub resolve : Store C → ℕ → ℕ → Store C × Option C
  resolve s method sync = elim (lookup (code method sync) s.hash) [
    | none ↦ (s, none)
    | some cb ↦ (
      signal_if_empty (delete (code method sync) s.hash)
          (record s { hash = delete (code method sync) s.hash }),
      some cb,
    )
  ]

  unfoldable pub reject_entries : List (ℕ × C) → Store C → Store C × List C
  reject_entries [] s = (s, [])
  reject_entries (e ∷ m) s = (on_emptied (record s { hash = [] }), map (λ p. p.1) (e ∷ m))

  -- The callbacks that are called with the error.
  unfoldable pub reject_all : Store C → Store C × List C
  reject_all s = reject_entries s.hash s

  unfoldable pub size : Store C → ℕ
  size s = length s.hash

  unfoldable pub waiting : Store C → Option ℕ → Store C × Channel
  waiting s (some ch) = (s, channel ch)
  waiting s none =
      (record s { emptied = some s.channels; channels = suc s.channels }, channel s.channels)

  unfoldable pub empty_of : Store C → List (ℕ × C) → Store C × Channel
  empty_of s [] = (s, closed_channel)
  empty_of s (e ∷ m) = waiting s s.emptied

  unfoldable pub empty : Store C → Store C × Channel
  empty s = empty_of s s.hash
