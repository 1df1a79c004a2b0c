-- ===== src/Iproto/Channel/Settled.antt =====
-- After a channel is dropped, or after its Shutdown has seen no pending call, only calls that have not
-- reached the test in send are pending, and this test answers them.
use activerecord.Prelude.{
  ℕ, List, [], ◌∷◌, ◌++◌, Option, some, Bool, true, false, ◌==◌, if◌then◌else◌, ◌≡◌, ◌≢◌, refl, ap,
  subst, ◌⊎◌, inl, inr, Bool-cases, arith, All,
}
use activerecord.Iproto.Packet.{Packet}
use activerecord.Iproto.Store.{Store, new_store, code, delete}
use activerecord.Iproto.Store.Laws.{push_inv}
use activerecord.Iproto.Store.Entries.{resolve_entries, hash-reject_all, hash-empty}
use activerecord.Iproto.Channel.Once.{IsOnce, Reached-IsOnce, new_channel-IsOnce}
use activerecord.Iproto.Channel.{
  Cause, Outcome, Begun, Phase, idle, draining, drained, ended, Channel, new_channel, enqueue,
  begin_call, begin_with, answer, resolve_call, refused, pass_call, refuse_call, send, reject_calls,
  drop_now, drop_channel, save_error, fatal, hijack, begin_shutdown, calls_drained, stop_writer,
  receive_ping, receive_shutdown, receive_other, ping, ping_missed, err_stopped,
}
use activerecord.Iproto.Channel.Calling.{begin_call_inv}
use activerecord.Iproto.Channel.Steps.{
  Move, Reached, at_start, and_then, calling, passing, refusing, queueing, resolving, sending,
  writing, receiving, pinging, saving, dropping, hijacking, shutting, awaiting, drained_now,
  stopping,
}

-- The call with this code and callback is among these.
abbrev pub Among : ℕ → ℕ → List Begun → Type 0
Among k id [] = ⊥
Among k id (b ∷ bs) = ((code b.method b.sync ≡ k) × (b.id ≡ id)) ⊎ Among k id bs

abbrev pub AllAmong : List (ℕ × ℕ) → List Begun → Type 0
AllAmong m bs = All (λ e. Among (e.0) (e.1) bs) m

Among-cons : (b : Begun) (bs : List Begun) (m : List (ℕ × ℕ)) → AllAmong m bs → AllAmong m (b ∷ bs)
Among-cons b bs [] h = tt
Among-cons b bs (e ∷ m) h = (inr (h.0), Among-cons b bs m h.1)

delete-AllAmong :
    (k : ℕ) (m : List (ℕ × ℕ)) (bs : List Begun) → AllAmong m bs → AllAmong (delete k m) bs
unfolding delete
delete-AllAmong k [] bs h = tt
delete-AllAmong k ((j, id) ∷ m) bs h = elim (Bool-cases (j == k)) [
  | inl e ↦ rw (e, if◌then◌else◌) (delete-AllAmong k m bs h.1)
  | inr e ↦ rw (e, if◌then◌else◌) (h.0, delete-AllAmong k m bs h.1)
]

Among-other :
    (before after : List Begun) (b : Begun) (k id : ℕ)
    → Among k id (before ++ (b ∷ after))
    → (code b.method b.sync ≢ k)
    → Among k id (before ++ after)
Among-other [] after b k id (inl h) ne = absurd (ne h.0)
Among-other [] after b k id (inr h) ne = h
Among-other (x ∷ before) after b k id (inl h) ne = inl h
Among-other (x ∷ before) after b k id (inr h) ne = inr (Among-other before after b k id h ne)

delete-AllAmong_other :
    (before after : List Begun) (b : Begun) (m : List (ℕ × ℕ))
    → AllAmong m (before ++ (b ∷ after))
    → AllAmong (delete (code b.method b.sync) m) (before ++ after)
unfolding delete
delete-AllAmong_other before after b [] h = tt
delete-AllAmong_other before after b ((j, id) ∷ m) h =
    elim (Bool-cases (j == code b.method b.sync)) [
      | inl e ↦ rw (e, if◌then◌else◌) (delete-AllAmong_other before after b m h.1)
      | inr e ↦
          rw (e, if◌then◌else◌)
            (
              Among-other before after b j id h.0 (λ p. ground arith),
              delete-AllAmong_other before after b m h.1,
            )
    ]

abbrev pub past_draining : Phase → Bool
past_draining idle = false
past_draining draining = false
past_draining drained = true
past_draining ended = true

-- The channel was dropped, or its Shutdown has seen no pending call.
abbrev pub is_over : Channel → Bool
is_over c = if c.dropped then true else past_draining c.phase

pub record IsSettled (c : Channel) : Type 0 where
  pub only_begun : is_over c ≡ true → AllAmong c.pending.hash c.begun

pub over_stopped : {c : Channel} → IsOnce c → is_over c ≡ true → c.stopped ≡ true
over_stopped h e = ground arith

-- A step that leaves the entries and the calls that have begun.
same-IsSettled :
    {c d : Channel}
    → d.pending.hash ≡ c.pending.hash
    → d.begun ≡ c.begun
    → (is_over d ≡ true → is_over c ≡ true)
    → IsSettled c
    → IsSettled d
same-IsSettled e f o h = record { only_begun = λ p. rw (e, f) (h.only_begun (o p)) }

resolve-IsSettled :
    {c : Channel} (method sync : ℕ) (o : Outcome)
    → IsSettled c
    → IsSettled (resolve_call c method sync o)
unfolding resolve_call answer
resolve-IsSettled {c} method sync o h = record {
  only_begun = λ e.
      rw ((resolve_entries c.pending method sync).1)
        (delete-AllAmong _ c.pending.hash c.begun (h.only_begun e));
}

refuse-IsSettled :
    {c : Channel} (before after : List Begun) (call : Begun) (e : Cause)
    → c.begun ≡ before ++ (call ∷ after)
    → IsSettled c
    → IsSettled (refuse_call before call after e c)
unfolding refuse_call resolve_call answer
refuse-IsSettled {c} before after call e f h = record {
  only_begun = λ p.
      rw ((resolve_entries c.pending call.method call.sync).1)
        (delete-AllAmong_other before after call c.pending.hash (rw f at (h.only_begun p)));
}

drop_now-IsSettled : (c : Channel) → IsSettled (drop_now c)
unfolding drop_now reject_calls
drop_now-IsSettled c = record { only_begun = λ p. rw (hash-reject_all c.pending) tt }

drop_channel-IsSettled : {c : Channel} → IsSettled c → IsSettled (drop_channel c)
unfolding drop_channel
drop_channel-IsSettled {c} h = ground (arith, drop_now-IsSettled c)

begin_with-IsSettled :
    (c : Channel) (method sync : ℕ) (s : Store ℕ)
    → s.hash ≡ (code method sync, c.next_call) ∷ c.pending.hash
    → IsSettled c
    → IsSettled ((begin_with c method (s, sync)).0)
unfolding begin_with
begin_with-IsSettled c method sync s e h = record {
  only_begun = λ p. rw e (inl (refl, refl), Among-cons _ c.begun c.pending.hash (h.only_begun p));
}

calling-IsSettled :
    {c d : Channel} (method : ℕ) (call : Begun)
    → begin_call c method ≡ some (d, call)
    → IsSettled c
    → IsSettled d
calling-IsSettled {c} {d} method call e h =
    let (s, sync, f, g) = begin_call_inv c d method call e in
    subst IsSettled (ap (λ r. r.0) g)
      (begin_with-IsSettled c method sync s ((push_inv c.pending s method sync c.next_call f).0) h)

send-IsSettled :
    {c : Channel} (force : Bool) (g : Option Cause) (p : Packet)
    → IsSettled c
    → IsSettled (send force g p c).0
unfolding send enqueue refused
send-IsSettled force g p h = ground arith

receive_other-IsSettled :
    {c : Channel} (handler : Bool) (p : Packet)
    → IsSettled c
    → IsSettled (receive_other handler c p).0
unfolding receive_other receive_ping receive_shutdown
receive_other-IsSettled handler p h = ground arith

save_error-IsSettled : {c : Channel} (e : Cause) → IsSettled c → IsSettled (save_error c e)
unfolding save_error
save_error-IsSettled e h = record { only_begun = h.only_begun }

fatal-IsSettled : {c : Channel} (e : Cause) → IsSettled c → IsSettled (fatal c e)
unfolding fatal
fatal-IsSettled {c} e h =
    ground (arith, drop_channel-IsSettled h, drop_channel-IsSettled (save_error-IsSettled e h))

ping-IsSettled : {c : Channel} (d now : ℕ) → IsSettled c → IsSettled (ping d now c).0
unfolding ping
ping-IsSettled {c} d now h = ground (arith, fatal-IsSettled ping_missed h)

begin_shutdown-IsSettled : {c : Channel} → IsOnce c → IsSettled c → IsSettled (begin_shutdown c)
unfolding begin_shutdown
begin_shutdown-IsSettled {c} o h = ground arith

calls_drained-IsSettled : (c : Channel) → c.pending.hash ≡ [] → IsSettled (calls_drained c)
unfolding calls_drained
calls_drained-IsSettled c e = record { only_begun = λ p. rw e tt }

stop_writer-IsSettled : {c : Channel} → IsSettled c → IsSettled (stop_writer c)
unfolding stop_writer
stop_writer-IsSettled {c} h = ground arith

Move-IsSettled : {c d : Channel} → Move c d → IsOnce c → IsSettled c → IsSettled d
unfolding enqueue pass_call hijack refused
Move-IsSettled (calling method call e) o h = calling-IsSettled method call e h
Move-IsSettled {c} (passing before after call e f) o h = record {
  only_begun = λ p. absurd (let x = over_stopped o p in ground arith);
}
Move-IsSettled (refusing before after call e f) o h = refuse-IsSettled before after call e f h
Move-IsSettled (queueing p e) o h = ground arith
Move-IsSettled (resolving method sync r) o h = resolve-IsSettled method sync r h
Move-IsSettled (sending force g p) o h = send-IsSettled force g p h
Move-IsSettled (writing p ps e) o h = same-IsSettled refl refl (λ x. x) h
Move-IsSettled (receiving handler p) o h = receive_other-IsSettled handler p h
Move-IsSettled (pinging d now) o h = ping-IsSettled d now h
Move-IsSettled (saving e f) o h = save_error-IsSettled e h
Move-IsSettled dropping o h = drop_channel-IsSettled h
Move-IsSettled hijacking o h = ground arith
Move-IsSettled shutting o h = begin_shutdown-IsSettled o h
Move-IsSettled {c} awaiting o h = same-IsSettled (hash-empty c.pending) refl (λ x. x) h
Move-IsSettled {c} (drained_now e) o h = calls_drained-IsSettled c e
Move-IsSettled stopping o h = stop_writer-IsSettled h

pub Reached-IsSettled :
    {start c : Channel} → IsOnce start → IsSettled start → Reached start c → IsSettled c
Reached-IsSettled o h at_start = h
Reached-IsSettled o h (and_then r m) =
    Move-IsSettled m (Reached-IsOnce o r) (Reached-IsSettled o h r)

pub new_channel-IsSettled : (size : ℕ) → IsSettled (new_channel size)
unfolding new_channel new_store
new_channel-IsSettled size = record { only_begun = λ p. tt }

-- However the steps of a channel follow each other, once it was dropped, or its Shutdown has seen no
-- pending call, a call that is pending stands between the push of its callback and the test of
-- `stopped`, and this test refuses it: no call waits for an answer that never comes.
pub pending_when_over :
    (size : ℕ) (c : Channel)
    → Reached (new_channel size) c
    → is_over c ≡ true
    → AllAmong c.pending.hash c.begun × (refused c ≡ some err_stopped)
unfolding refused
pending_when_over size c r e =
    let o = over_stopped (Reached-IsOnce (new_channel-IsOnce size) r) e in
    (
      (Reached-IsSettled (new_channel-IsOnce size) (new_channel-IsSettled size) r).only_begun e,
      ground arith,
    )
