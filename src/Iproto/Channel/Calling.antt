-- ===== src/Iproto/Channel/Calling.antt =====
-- A call that has begun.
use activerecord.Prelude.{ℕ, some, ◌≡◌, Option-cases, inl, inr}
use activerecord.Iproto.Store.{Store, push}
use activerecord.Iproto.Channel.{Begun, Channel, begin_with, begin_call}

pub begin_call_inv :
    (c d : Channel) (method : ℕ) (call : Begun)
    → begin_call c method ≡ some (d, call)
    → (s : Store ℕ) × (sync : ℕ) × (push c.pending method c.next_call ≡ some (s, sync))
      × (begin_with c method (s, sync) ≡ (d, call))
unfolding begin_call
begin_call_inv c d method call h = elim (Option-cases (push c.pending method c.next_call)) [
  | inl e ↦ (let h' = rw (e, begin_call) at h in absurd (cc))
  | inr (r, e) ↦ (let h' = rw (e, begin_call) at h in (r.0, r.1, e, cc))
]
