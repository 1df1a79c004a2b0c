-- ===== src/Tests/Pending.antt =====
-- The store of pending calls of pkg/iproto/iproto/pending.go at concrete inputs.
use activerecord.Prelude.{ℕ, ◌^◌, ◌<◌, [], ◌∷◌, none, some, ◌≡◌, refl, arith, inr}
use activerecord.Iproto.Store.{Store, push, resolve, lookup, code, free_sync, add_entry}
use activerecord.Iproto.Store.Laws.{IsValid, resolves, step, step-IsValid, push_lem, resolve-push}

-- One pending call, and a channel that waits for the store to be empty.
abbrev one_pending : Store ℕ
one_pending = record {
  hash = (code 17 1, 5) ∷ [];
  sync = 1;
  emptied = some 0;
  closed = [];
  channels = 1;
}

one_pending-IsValid : IsValid one_pending
unfolding lookup
one_pending-IsValid = record {
  distinct = (refl, tt);
  sync_fits = omega arith;
  waited = inr (λ e. cc);
  fresh = (tt, omega arith);
}

step-IsValid_example : IsValid (step one_pending (resolves 17 1))
step-IsValid_example = step-IsValid one_pending (resolves 17 1) one_pending-IsValid

push_lem_example :
    (sync : ℕ) × (push one_pending 17 6
      ≡ some
          (record one_pending { hash = (code 17 sync, 6) ∷ one_pending.hash; sync = sync }, sync))
    × (lookup (code 17 sync) one_pending.hash ≡ none)
    × (sync < 2 ^ 32)
push_lem_example = push_lem one_pending 17 6 one_pending-IsValid (omega arith)

pushed_twice :
    push one_pending 17 6
    ≡ some (record one_pending { hash = (code 17 2, 6) ∷ one_pending.hash; sync = 2 }, 2)
unfolding push free_sync add_entry lookup
pushed_twice = refl

resolve-push_example :
    ((resolve (record one_pending { hash = (code 17 2, 6) ∷ one_pending.hash; sync = 2 }) 17 2).1
      ≡ some 6)
    × ((resolve
          (record one_pending { hash = (code 17 2, 6) ∷ one_pending.hash; sync = 2 })
          17
          2).0.hash
        ≡ one_pending.hash)
    × ((resolve
          (resolve
            (record one_pending { hash = (code 17 2, 6) ∷ one_pending.hash; sync = 2 })
            17
            2).0
          17
          2).1
        ≡ none)
resolve-push_example =
    resolve-push one_pending
      (record one_pending { hash = (code 17 2, 6) ∷ one_pending.hash; sync = 2 }) 17 2 6
      pushed_twice
