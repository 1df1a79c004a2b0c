-- ===== src/Iproto/Store/Push.antt =====
-- `push` ends, and finds a free code.
use activerecord.Prelude.{
  ℕ, zero, suc, ◌+◌, ◌%◌, ◌^◌, ◌<◌, List, length, none, some, false, ◌==◌, ◌≡◌, ◌≢◌, refl, arith,
  Option-cases, inl, inr, ◌∙◌, sym, subst,
}
use activerecord.Iproto.Store.{lookup, delete, code, next_sync, free_sync}
use activerecord.Iproto.Store.Map.{lookup-delete, length-delete-lt}

-- A sync id comes round again only after 2 ^ 32 of them.
codes_apart :
    (method old gap : ℕ)
    → old < 2 ^ 32
    → gap + 1 < 2 ^ 32
    → code method old ≢ code method (next_sync ((old + gap) % 2 ^ 32))
codes_apart method old gap h g = omega arith

gap_suc : (old gap : ℕ) → (old + suc gap) % 2 ^ 32 ≡ next_sync ((old + gap) % 2 ^ 32)
gap_suc old gap = omega arith

module _ {C : Type 0} where
  -- Where two maps agree on the code of the next sync id, a round looks the same in both.
  round_lem :
      (fuel method sync : ℕ) (m n : List (ℕ × C))
      → lookup (code method (next_sync sync)) n ≡ lookup (code method (next_sync sync)) m
      → free_sync fuel method (next_sync sync) n ≡ free_sync fuel method (next_sync sync) m
      → free_sync (suc fuel) method sync n ≡ free_sync (suc fuel) method sync m
  unfolding free_sync
  round_lem fuel method sync m n e ih = ground arith

  -- An entry of another code does not matter: here one of a sync id `gap` ids behind.
  free_sync-delete :
      (fuel method old gap : ℕ) (m : List (ℕ × C))
      → old < 2 ^ 32
      → fuel + gap < 2 ^ 32
      → free_sync fuel method ((old + gap) % 2 ^ 32) (delete (code method old) m)
        ≡ free_sync fuel method ((old + gap) % 2 ^ 32) m
  free_sync-delete zero method old gap m ho hf = unfold free_sync in refl
  free_sync-delete (suc fuel) method old gap m ho hf =
      let sync = (old + gap) % 2 ^ 32 in
      let next = code method (next_sync sync) in
      let apart : (code method old == next) ≡ false =
        ground (arith, codes_apart method old gap ho (omega arith)) in
      round_lem fuel method sync m (delete (code method old) m)
        (rw (lookup-delete (code method old) next m, apart))
        (rw (← gap_suc old gap) (free_sync-delete fuel method old (suc gap) m ho (omega arith)))

  -- With one round more than entries the loop finds a sync id whose code is free.
  pub free_sync_total :
      (fuel method sync : ℕ) (m : List (ℕ × C))
      → sync < 2 ^ 32
      → length m < fuel
      → fuel < 2 ^ 32
      → (next : ℕ) × (free_sync fuel method sync m ≡ some next)
  unfolding free_sync
  free_sync_total zero method sync m hs hm hf = absurd (omega arith)
  free_sync_total (suc fuel) method sync m hs hm hf =
      let next = next_sync sync in
      elim (Option-cases (lookup (code method next) m)) [
        | inl e ↦ (next, rw (e, free_sync))
        | inr (cb, e) ↦
            let back : (next + 0) % 2 ^ 32 ≡ next = omega arith in
            let same =
              subst
                (λ x.
                  free_sync fuel method x (delete (code method next) m) ≡ free_sync fuel method x m)
                back (free_sync-delete fuel method next 0 m (omega arith) (omega arith)) in
            let smaller = length-delete-lt (code method next) m cb e in
            let (found, q) =
              free_sync_total fuel method next (delete (code method next) m) (omega arith)
                (omega arith) (omega arith) in
            (found, rw (e, free_sync) (sym same ∙ q))
      ]

  -- What it finds is free.
  pub free_sync-lookup :
      (fuel method sync : ℕ) (m : List (ℕ × C)) (next : ℕ)
      → free_sync fuel method sync m ≡ some next
      → (lookup (code method next) m ≡ none) × (next < 2 ^ 32)
  unfolding free_sync
  free_sync-lookup zero method sync m next h = absurd (cc)
  free_sync-lookup (suc fuel) method sync m next h =
      ground (arith, free_sync-lookup fuel method (next_sync sync) m next)
