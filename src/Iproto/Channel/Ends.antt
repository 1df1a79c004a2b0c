-- ===== src/Iproto/Channel/Ends.antt =====
-- The calls that a channel still has when it is over end by the test in send.
use activerecord.Prelude.{
  ℕ, suc, ◌+◌, ◌<◌, List, [], ◌∷◌, ◌++◌, length, length-split, some, true, ◌≡◌, refl, ap, subst,
  ◌∙◌, ◌⊎◌, inl, inr, arith, times,
}
use activerecord.Iproto.Channel.{
  Cause, Begun, Channel, err_stopped, new_channel, refused, refuse_call, resolve_call, answer,
}
use activerecord.Iproto.Channel.Steps.{Reached, and_then, refusing}
use activerecord.Iproto.Channel.Once.{Reached-IsOnce, new_channel-IsOnce}
use activerecord.Iproto.Channel.Settled.{
  AllAmong, is_over, over_stopped, Reached-IsSettled, new_channel-IsSettled,
}
use activerecord.Iproto.Channel.Answers.{
  waiting_ids, answered_ids, once, Reached-IsCounted, new_channel-IsCounted,
}

-- `Refusals c k d`: k calls, in any order, come to the test in send, and it refuses each with the cause
-- that it gives. Nothing else happens: no answer, no timeout.
pub data Refusals (c : Channel) : ℕ → Channel → Type 0 where
  no_refusal : Refusals c 0 c
  one_more :
      {k : ℕ} {d : Channel} (before after : List Begun) (call : Begun) (e : Cause)
      → Refusals c k d
      → d.begun ≡ before ++ (call ∷ after)
      → refused d ≡ some e
      → Refusals c (suc k) (refuse_call before call after e d)

refusals-Reached :
    {start c d : Channel} {k : ℕ} → Reached start c → Refusals c k d → Reached start d
refusals-Reached r no_refusal = r
refusals-Reached r (one_more before after call e h f g) =
    and_then (refusals-Reached r h) (refusing before after call e f)

-- A refusal takes a call off, and changes neither what `is_over` reads nor the number of calls.
refusals_lem :
    {c d : Channel} {k : ℕ}
    → Refusals c k d
    → (length d.begun + k ≡ length c.begun) × (is_over d ≡ is_over c) × (d.next_call ≡ c.next_call)
unfolding refuse_call resolve_call answer
refusals_lem no_refusal = (omega arith, refl, refl)
refusals_lem (one_more {k} {d} before after call e h f g) =
    let (l, o, n) = refusals_lem h in
    let s = length-split before after call d.begun f in (omega (arith, l, s), o, n)

none_among : (m : List (ℕ × ℕ)) → AllAmong m [] → m ≡ []
none_among [] h = refl
none_among (e ∷ m) h = absurd (h.0)

-- With no call left at the test, none is pending.
all_answered :
    (size : ℕ) (d : Channel)
    → Reached (new_channel size) d
    → is_over d ≡ true
    → d.begun ≡ []
    → (d.pending.hash ≡ []) × ((i : ℕ) → times i (answered_ids d) ≡ once i d.next_call)
all_answered size d r o b =
    let settled = Reached-IsSettled (new_channel-IsOnce size) (new_channel-IsSettled size) r in
    let counted = Reached-IsCounted (new_channel-IsCounted size) r in
    let e = none_among d.pending.hash (subst (AllAmong d.pending.hash) b (settled.only_begun o)) in
    (
      e,
      λ i.
          (let x = counted.counted i in
            let y : times i (waiting_ids d) ≡ 0 = rw e refl in omega (arith, x, y)),
    )

may_refuse :
    (c d : Channel) (k : ℕ) (bs : List Begun)
    → Refusals c k d
    → d.begun ≡ bs
    → refused d ≡ some err_stopped
    → (bs ≡ []) ⊎ ((m : Channel) × Refusals c (suc k) m)
may_refuse c d k [] h e f = inl refl
may_refuse c d k (b ∷ bs) h e f =
    inr (refuse_call [] b bs err_stopped d, one_more [] bs b err_stopped h e f)

-- After a channel was dropped, or its Shutdown has seen no pending call, the calls that it still has end
-- without an answer from the peer: as long as one stands between the push of its callback and the test
-- in send, this test refuses one; and, in whatever order they come to it, as soon as it has refused as
-- many as stood there, no call is pending and each call that was made has got exactly one outcome.
pub calls_end :
    (size k : ℕ) (c d : Channel)
    → Reached (new_channel size) c
    → is_over c ≡ true
    → Refusals c k d
    → ((k < length c.begun) × (m : Channel) × Refusals c (suc k) m)
      ⊎ ((k ≡ length c.begun)
          × (d.pending.hash ≡ [])
          × ((i : ℕ) → times i (answered_ids d) ≡ once i c.next_call))
unfolding refused
calls_end size k c d r o h =
    let (l, p, n) = refusals_lem h in
    let s = refusals-Reached r h in
    let stop = over_stopped (Reached-IsOnce (new_channel-IsOnce size) s) (p ∙ o) in
    elim (may_refuse c d k d.begun h refl (ground arith)) [
      | inl b ↦
          let (e, a) = all_answered size d s (p ∙ o) b in
          inr ((let z = ap length b in omega (arith, l, z)), e, λ i. a i ∙ ap (once i) n)
      | inr (m, q) ↦ let (l', p', n') = refusals_lem q in inl (omega (arith, l'), m, q)
    ]
