-- ===== src/Iproto/Store/Entries.antt =====
-- What the operations of the store do to its entries.
use activerecord.Prelude.{
  ℕ, List, [], ◌∷◌, Option, none, some, ◌≡◌, refl, sym, ◌∙◌, Option-cases, inl, inr,
}
use activerecord.Iproto.Store.{
  Store, lookup, delete, code, resolve, reject_all, waiting, empty_of, empty,
}
use activerecord.Iproto.Store.Map.{delete_absent}
use activerecord.Iproto.Store.Laws.{resolve_found, reject_entries_lem}

module _ {C : Type 0} where
  -- Resolving calls the callback that stands under the code, and takes it away.
  pub resolve_entries :
      (s : Store C) (method sync : ℕ)
      → ((resolve s method sync).1 ≡ lookup (code method sync) s.hash)
        × ((resolve s method sync).0.hash ≡ delete (code method sync) s.hash)
  unfolding resolve
  resolve_entries s method sync = elim (Option-cases (lookup (code method sync) s.hash)) [
    | inl e ↦ rw (e, resolve) (refl, sym (delete_absent _ s.hash e))
    | inr (cb, e) ↦ let (a, b) = resolve_found s method sync cb e in (a ∙ sym e, b)
  ]

  pub hash-reject_all : (s : Store C) → (reject_all s).0.hash ≡ []
  unfolding reject_all
  hash-reject_all s = (reject_entries_lem s.hash s refl).1

  hash-waiting : (s : Store C) (o : Option ℕ) → (waiting s o).0.hash ≡ s.hash
  unfolding waiting
  hash-waiting s none = refl
  hash-waiting s (some ch) = refl

  hash-empty_of : (s : Store C) (m : List (ℕ × C)) → (empty_of s m).0.hash ≡ s.hash
  unfolding empty_of
  hash-empty_of s [] = refl
  hash-empty_of s (e ∷ m) = hash-waiting s s.emptied

  pub hash-empty : (s : Store C) → (empty s).0.hash ≡ s.hash
  unfolding empty
  hash-empty s = hash-empty_of s s.hash
