-- ===== src/Iproto/Store/Laws.antt =====
-- The invariant of the store, and what its operations do.
use activerecord.Prelude.{
  ℕ, ◌+◌, ◌^◌, ◌≤◌, ◌<◌, List, [], ◌∷◌, length, map, Option, none, some, ◌≡◌, ◌≢◌, refl, ◌∙◌, arith,
  Option-cases, inl, inr, ◌⊎◌, subst, All,
}
use activerecord.Iproto.Store.{
  Store, lookup, delete, code, free_sync, add_entry, push, on_emptied, signal, signal_if_empty,
  resolve, reject_entries, reject_all, size, waiting, empty_of, empty,
}
use activerecord.Iproto.Store.Map.{Distinct, delete-Distinct, delete_absent}
use activerecord.Iproto.Store.Push.{free_sync_total, free_sync-lookup}

-- The channel that is given out is not closed yet, nor is any later one.
abbrev pub Fresh : Option ℕ → List ℕ → ℕ → Type 0
Fresh none closed n = All (λ c. c < n) closed
Fresh (some ch) closed n = All (λ c. c < ch) closed × (ch < n)

-- A channel is waited for only while calls are pending.
pub record IsValid {C : Type 0} (s : Store C) : Type 0 where
  pub distinct : Distinct s.hash
  pub sync_fits : s.sync < 2 ^ 32
  pub waited : (s.emptied ≡ none) ⊎ (s.hash ≢ [])
  pub fresh : Fresh s.emptied s.closed s.channels

pub data Op (C : Type 0) : Type 0 where
  pushes : ℕ → C → Op C
  resolves : ℕ → ℕ → Op C
  rejects : Op C
  waits : Op C

All-lt_mono : (m n : ℕ) (xs : List ℕ) → m ≤ n → All (λ c. c < m) xs → All (λ c. c < n) xs
All-lt_mono m n [] h a = tt
All-lt_mono m n (x ∷ xs) h a = (omega arith, All-lt_mono m n xs h a.1)

module _ {C : Type 0} where
  pushed : Store C → Option (Store C × ℕ) → Store C
  pushed s none = s
  pushed s (some (s', sync)) = s'

  pub step : Store C → Op C → Store C
  step s (pushes method cb) = pushed s (push s method cb)
  step s (resolves method sync) = (resolve s method sync).0
  step s rejects = (reject_all s).0
  step s waits = (empty s).0

  pub run : Store C → List (Op C) → Store C
  run s [] = s
  run s (op ∷ ops) = run (step s op) ops

  signal-IsValid :
      (s : Store C) (o : Option ℕ)
      → s.emptied ≡ o
      → Fresh o s.closed s.channels
      → Distinct s.hash
      → s.sync < 2 ^ 32
      → IsValid (signal s o)
  unfolding signal
  signal-IsValid s none e f d h = record {
    distinct = d;
    sync_fits = h;
    waited = inl e;
    fresh = rw e f;
  }
  signal-IsValid s (some ch) e f d h = record {
    distinct = d;
    sync_fits = h;
    waited = inl refl;
    fresh = (f.1, All-lt_mono ch s.channels s.closed (omega arith) f.0);
  }

  on_emptied-IsValid :
      (s : Store C)
      → Distinct s.hash
      → s.sync < 2 ^ 32
      → Fresh s.emptied s.closed s.channels
      → IsValid (on_emptied s)
  unfolding on_emptied
  on_emptied-IsValid s d h f = signal-IsValid s s.emptied refl f d h

  signal_if_empty-IsValid :
      (m : List (ℕ × C)) (s : Store C)
      → s.hash ≡ m
      → Distinct s.hash
      → s.sync < 2 ^ 32
      → Fresh s.emptied s.closed s.channels
      → IsValid (signal_if_empty m s)
  unfolding signal_if_empty
  signal_if_empty-IsValid [] s e d h f = on_emptied-IsValid s d h f
  signal_if_empty-IsValid (x ∷ m) s e d h f = record {
    distinct = d;
    sync_fits = h;
    waited = inr (λ p. cc (e, p));
    fresh = f;
  }

  pub resolve-IsValid :
      (s : Store C) (method sync : ℕ) → IsValid s → IsValid (resolve s method sync).0
  unfolding resolve
  resolve-IsValid s method sync v = elim (Option-cases (lookup (code method sync) s.hash)) [
    | inl e ↦ rw (e, resolve) v
    | inr (cb, e) ↦
        rw (e, resolve)
          (signal_if_empty-IsValid _ _ refl (delete-Distinct _ s.hash v.distinct) v.sync_fits
            v.fresh)
  ]

  pub reject_entries-IsValid :
      (m : List (ℕ × C)) (s : Store C) → IsValid s → IsValid (reject_entries m s).0
  unfolding reject_entries
  reject_entries-IsValid [] s v = v
  reject_entries-IsValid (x ∷ m) s v =
      on_emptied-IsValid (record s { hash = [] }) tt v.sync_fits v.fresh

  waiting-IsValid :
      (s : Store C) (o : Option ℕ)
      → s.emptied ≡ o
      → s.hash ≢ []
      → IsValid s
      → IsValid (waiting s o).0
  unfolding waiting
  waiting-IsValid s (some ch) e ne v = v
  waiting-IsValid s none e ne v = record {
    distinct = v.distinct;
    sync_fits = v.sync_fits;
    waited = inr ne;
    fresh = (subst (λ o. Fresh o s.closed s.channels) e v.fresh, omega arith);
  }

  pub empty_of-IsValid :
      (s : Store C) (m : List (ℕ × C)) → s.hash ≡ m → IsValid s → IsValid (empty_of s m).0
  unfolding empty_of
  empty_of-IsValid s [] e v = v
  empty_of-IsValid s (x ∷ m) e v = waiting-IsValid s s.emptied refl (λ p. cc (e, p)) v

  pub push-IsValid :
      (s : Store C) (method : ℕ) (cb : C) → IsValid s → IsValid (step s (pushes method cb))
  unfolding step push pushed add_entry
  push-IsValid s method cb v =
      elim (Option-cases (free_sync (length s.hash + 1) method s.sync s.hash)) [
        | inl e ↦ rw (e, push) v
        | inr (sync, e) ↦
            let (free, fits) = free_sync-lookup (length s.hash + 1) method s.sync s.hash sync e in
            rw (e, push)
              (record {
                distinct = (free, v.distinct);
                sync_fits = fits;
                waited = inr (λ p. cc);
                fresh = v.fresh;
              })
      ]

  -- Every operation keeps the invariant: codes stand once, sync ids fit, a channel is waited for only
  -- while calls are pending, and no channel is closed twice or given out after it was closed.
  pub step-IsValid : (s : Store C) (op : Op C) → IsValid s → IsValid (step s op)
  unfolding step reject_all empty
  step-IsValid s (pushes method cb) v = push-IsValid s method cb v
  step-IsValid s (resolves method sync) v = resolve-IsValid s method sync v
  step-IsValid s rejects v = reject_entries-IsValid s.hash s v
  step-IsValid s waits v = empty_of-IsValid s s.hash refl v

  -- On a store that is in order, while fewer than 2 ^ 32 - 1 calls are pending, `push` ends: it gives
  -- the callback a code that no pending call has, with a sync id of 32 bits, and leaves the other
  -- entries as they are.
  pub push_lem :
      (s : Store C) (method : ℕ) (cb : C)
      → IsValid s
      → length s.hash + 1 < 2 ^ 32
      → (sync : ℕ) × (push s method cb
          ≡ some (record s { hash = (code method sync, cb) ∷ s.hash; sync = sync }, sync))
        × (lookup (code method sync) s.hash ≡ none)
        × (sync < 2 ^ 32)
  unfolding push add_entry
  push_lem s method cb v h =
      let fuel = length s.hash + 1 in
      let (sync, e) = free_sync_total fuel method s.sync s.hash v.sync_fits (omega arith) h in
      let (free, fits) = free_sync-lookup fuel method s.sync s.hash sync e in
      (sync, rw (e, push), free, fits)

  pub push_inv :
      (s s' : Store C) (method sync : ℕ) (cb : C)
      → push s method cb ≡ some (s', sync)
      → (s'.hash ≡ (code method sync, cb) ∷ s.hash) × (lookup (code method sync) s.hash ≡ none)
  unfolding push add_entry
  push_inv s s' method sync cb e =
      ground (arith, free_sync-lookup (length s.hash + 1) method s.sync s.hash sync)

  hash-signal_if_empty : (m : List (ℕ × C)) (s : Store C) → (signal_if_empty m s).hash ≡ s.hash
  unfolding signal_if_empty on_emptied signal
  hash-signal_if_empty [] s = ground arith
  hash-signal_if_empty (x ∷ m) s = refl

  pub resolve_found :
      (s : Store C) (method sync : ℕ) (cb : C)
      → lookup (code method sync) s.hash ≡ some cb
      → ((resolve s method sync).1 ≡ some cb)
        × ((resolve s method sync).0.hash ≡ delete (code method sync) s.hash)
  unfolding resolve
  resolve_found s method sync cb e =
      rw (e, resolve) (refl, hash-signal_if_empty (delete (code method sync) s.hash) _)

  pub resolve_missing :
      (s : Store C) (method sync : ℕ)
      → lookup (code method sync) s.hash ≡ none
      → (resolve s method sync).1 ≡ none
  unfolding resolve
  resolve_missing s method sync e = rw (e, resolve)

  -- The answer to a call that was pushed reaches its callback and takes away its entry alone; a
  -- second answer reaches none.
  pub resolve-push :
      (s s' : Store C) (method sync : ℕ) (cb : C)
      → push s method cb ≡ some (s', sync)
      → ((resolve s' method sync).1 ≡ some cb)
        × ((resolve s' method sync).0.hash ≡ s.hash)
        × ((resolve (resolve s' method sync).0 method sync).1 ≡ none)
  resolve-push s s' method sync cb e =
      let k = code method sync in
      let (entries, free) = push_inv s s' method sync cb e in
      let there : lookup k s'.hash ≡ some cb = rw entries (unfold lookup in ground arith) in
      let gone : delete k s'.hash ≡ s.hash =
        rw entries (unfold delete in ground (arith, delete_absent k s.hash)) in
      let (called, left) = resolve_found s' method sync cb there in
      let back : (resolve s' method sync).0.hash ≡ s.hash = left ∙ gone in
      (called, back, resolve_missing (resolve s' method sync).0 method sync (rw back free))

  pub reject_entries_lem :
      (m : List (ℕ × C)) (s : Store C)
      → s.hash ≡ m
      → ((reject_entries m s).1 ≡ map (λ p. p.1) m) × ((reject_entries m s).0.hash ≡ [])
  unfolding reject_entries on_emptied signal
  reject_entries_lem [] s e = (refl, e)
  reject_entries_lem (x ∷ m) s e = (refl, ground arith)

  -- `rejectAll` calls each pending callback once, in some order, and leaves none pending.
  pub reject_all_lem :
      (s : Store C) → ((reject_all s).1 ≡ map (λ p. p.1) s.hash) × (size (reject_all s).0 ≡ 0)
  unfolding reject_all size
  reject_all_lem s =
      let (calls, none_left) = reject_entries_lem s.hash s refl in (calls, rw none_left)
