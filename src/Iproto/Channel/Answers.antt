-- ===== src/Iproto/Channel/Answers.antt =====
-- Each call is answered once.
use activerecord.Prelude.{
  ℕ, ◌+◌, List, [], ◌∷◌, ◌++◌, Option, none, some, Bool, true, false, ltb, if◌then◌else◌, ◌≡◌, refl,
  sym, ap, subst, ◌⊎◌, ◌*◌, ◌-◌, inl, inr, Bool-cases, Option-cases, arith, map, times,
}
use activerecord.Iproto.Packet.{Packet}
use activerecord.Iproto.Store.{Store, code, lookup, delete, reject_all, new_store}
use activerecord.Iproto.Store.Map.{Distinct, delete-Distinct, delete_absent}
use activerecord.Iproto.Store.Laws.{push_inv, reject_entries_lem}
use activerecord.Iproto.Store.Entries.{resolve_entries, hash-empty}
use activerecord.Iproto.Channel.{
  Cause, err_dropped_conn, Outcome, failed, Begun, Channel, new_channel, enqueue, begin_call,
  begin_with, answer, noted, resolve_call, refused, pass_call, refuse_call, send, reject_calls,
  drop_now, drop_channel, save_error, fatal, hijack, begin_shutdown, calls_drained, stop_writer,
  receive_ping, receive_shutdown, receive_other, ping, ping_missed,
}
use activerecord.Iproto.Channel.Calling.{begin_call_inv}
use activerecord.Iproto.Channel.Steps.{
  Move, Reached, at_start, and_then, calling, passing, refusing, queueing, resolving, sending,
  writing, receiving, pinging, saving, dropping, hijacking, shutting, awaiting, drained_now,
  stopping,
}

abbrev pub waiting_ids : Channel → List ℕ
waiting_ids c = map (λ e. e.1) c.pending.hash

abbrev pub answered_ids : Channel → List ℕ
answered_ids c = map (λ a. a.0) c.answers

abbrev pub once : ℕ → ℕ → ℕ
once i next = if ltb i next then 1 else 0

-- The callback that is found under a key, as a list.
abbrev found : Option ℕ → List ℕ
found none = []
found (some id) = id ∷ []

times-delete :
    (i k : ℕ) (m : List (ℕ × ℕ))
    → Distinct m
    → times i (map (λ e. e.1) (delete k m)) + times i (found (lookup k m))
      ≡ times i (map (λ e. e.1) m)
unfolding delete lookup
times-delete i k [] h = refl
times-delete i k ((j, cb) ∷ m) h = ground (arith, times-delete i k m h.1, delete_absent k m)

times-noted :
    (i : ℕ) (r : Option ℕ) (o : Outcome) (xs : List (ℕ × Outcome))
    → times i (map (λ a. a.0) (noted r o xs)) ≡ times i (found r) + times i (map (λ a. a.0) xs)
unfolding noted
times-noted i none o xs = omega arith
times-noted i (some id) o xs = ground arith

times-failed :
    (i : ℕ) (ids : List ℕ) (e : Cause) (xs : List (ℕ × Outcome))
    → times i (map (λ a. a.0) (map (λ id. (id, failed e)) ids ++ xs))
      ≡ times i ids + times i (map (λ a. a.0) xs)
times-failed i [] e xs = omega arith
times-failed i (id ∷ ids) e xs = ground (arith, times-failed i ids e xs)

pub record IsCounted (c : Channel) : Type 0 where
  pub distinct : Distinct c.pending.hash
  pub counted : (i : ℕ) → times i (waiting_ids c) + times i (answered_ids c) ≡ once i c.next_call

resolve-IsCounted :
    {c : Channel} (method sync : ℕ) (o : Outcome)
    → IsCounted c
    → IsCounted (resolve_call c method sync o)
unfolding resolve_call answer
resolve-IsCounted {c} method sync o h =
    let k = code method sync in
    let (a, b) = resolve_entries c.pending method sync in
    record {
      distinct = rw b (delete-Distinct k c.pending.hash h.distinct);
      counted = λ i. rw b (
          rw a (
            let x = times-delete i k c.pending.hash h.distinct in
            let y = times-noted i (lookup k c.pending.hash) o c.answers in
            let z = h.counted i in omega (arith, x, y, z)));
    }

drop_now-IsCounted : {c : Channel} → IsCounted c → IsCounted (drop_now c)
unfolding drop_now reject_calls reject_all
drop_now-IsCounted {c} h =
    let (a, b) = reject_entries_lem c.pending.hash c.pending refl in
    record {
      distinct = rw b tt;
      counted = λ i. rw b (
          rw a (
            let x = times-failed i (waiting_ids c) err_dropped_conn c.answers in
            let z = h.counted i in omega (arith, x, z)));
    }

begin_with-IsCounted :
    (c : Channel) (method sync : ℕ) (s : Store ℕ)
    → s.hash ≡ (code method sync, c.next_call) ∷ c.pending.hash
    → lookup (code method sync) c.pending.hash ≡ none
    → IsCounted c
    → IsCounted ((begin_with c method (s, sync)).0)
unfolding begin_with
begin_with-IsCounted c method sync s e f h = record {
  distinct = rw e (f, h.distinct);
  counted = λ i. rw e (let z = h.counted i in ground (arith, z));
}

calling-IsCounted :
    {c d : Channel} (method : ℕ) (call : Begun)
    → begin_call c method ≡ some (d, call)
    → IsCounted c
    → IsCounted d
calling-IsCounted {c} {d} method call e h =
    let (s, sync, f, g) = begin_call_inv c d method call e in
    let (a, b) = push_inv c.pending s method sync c.next_call f in
    subst IsCounted (ap (λ r. r.0) g) (begin_with-IsCounted c method sync s a b h)

-- A step that leaves the entries, the answers and the number of calls.
same-IsCounted :
    {c d : Channel}
    → d.pending.hash ≡ c.pending.hash
    → d.answers ≡ c.answers
    → d.next_call ≡ c.next_call
    → IsCounted c
    → IsCounted d
same-IsCounted e f g h = record {
  distinct = rw e h.distinct;
  counted = λ i. rw e (rw f (rw g (h.counted i)));
}

refuse-IsCounted :
    {c : Channel} (before after : List Begun) (call : Begun) (e : Cause)
    → IsCounted c
    → IsCounted (refuse_call before call after e c)
unfolding refuse_call
refuse-IsCounted before after call e h =
    same-IsCounted refl refl refl (resolve-IsCounted call.method call.sync (failed e) h)

drop_channel-IsCounted : {c : Channel} → IsCounted c → IsCounted (drop_channel c)
unfolding drop_channel
drop_channel-IsCounted {c} h = elim (Bool-cases c.dropped) [
  | inl e ↦ subst IsCounted (sym (ground arith)) h
  | inr e ↦ subst IsCounted (sym (ground arith)) (drop_now-IsCounted h)
]

-- What send, the reader, the timers and Shutdown do beside answering calls.
send-IsCounted :
    {c : Channel} (force : Bool) (g : Option Cause) (p : Packet)
    → IsCounted c
    → IsCounted (send force g p c).0
unfolding send enqueue refused
send-IsCounted force g p h = same-IsCounted (ground arith) (ground arith) (ground arith) h

receive_other-IsCounted :
    {c : Channel} (handler : Bool) (p : Packet)
    → IsCounted c
    → IsCounted (receive_other handler c p).0
unfolding receive_other receive_ping receive_shutdown
receive_other-IsCounted handler p h = same-IsCounted (ground arith) (ground arith) (ground arith) h

either-IsCounted :
    {c d : Channel} (b : Bool) → IsCounted c → IsCounted d → IsCounted (if b then c else d)
either-IsCounted true h k = h
either-IsCounted false h k = k

fatal-IsCounted : {c : Channel} (e : Cause) → IsCounted c → IsCounted (fatal c e)
unfolding fatal save_error
fatal-IsCounted {c} e h =
    drop_channel-IsCounted (either-IsCounted c.dropped h (same-IsCounted refl refl refl h))

-- A ping that is not too late leaves all but the time of the last one.
ping_outcome :
    (d now : ℕ) (c : Channel)
    → ((l : Option ℕ) × ((ping d now c).0 ≡ record c { last_ping = l }))
      ⊎ ((ping d now c).0 ≡ fatal c ping_missed)
unfolding ping
ping_outcome d now c = elim (Bool-cases c.dropped) [
  | inl p ↦ inl (c.last_ping, ground arith)
  | inr p ↦ elim (Option-cases c.last_ping) [
    | inl e ↦ inl (some now, ground arith)
    | inr (t, e) ↦ elim (Bool-cases (ltb (2 * d) (now - t))) [
      | inl late ↦ inr (ground arith)
      | inr in_time ↦ inl (c.last_ping, ground arith)
    ]
  ]
]

ping-IsCounted : {c : Channel} (d now : ℕ) → IsCounted c → IsCounted (ping d now c).0
ping-IsCounted {c} d now h = elim (ping_outcome d now c) [
  | inl (l, e) ↦ subst IsCounted (sym e) (same-IsCounted refl refl refl h)
  | inr e ↦ subst IsCounted (sym e) (fatal-IsCounted ping_missed h)
]

Move-IsCounted : {c d : Channel} → Move c d → IsCounted c → IsCounted d
unfolding enqueue pass_call hijack refused save_error begin_shutdown calls_drained stop_writer
Move-IsCounted (calling method call e) h = calling-IsCounted method call e h
Move-IsCounted (passing before after call e f) h = same-IsCounted refl refl refl h
Move-IsCounted (refusing before after call e f) h = refuse-IsCounted before after call e h
Move-IsCounted (queueing p e) h = same-IsCounted (ground arith) (ground arith) (ground arith) h
Move-IsCounted (resolving method sync r) h = resolve-IsCounted method sync r h
Move-IsCounted (sending force g p) h = send-IsCounted force g p h
Move-IsCounted (writing p ps e) h = same-IsCounted refl refl refl h
Move-IsCounted (receiving handler p) h = receive_other-IsCounted handler p h
Move-IsCounted (pinging d now) h = ping-IsCounted d now h
Move-IsCounted (saving e f) h = same-IsCounted refl refl refl h
Move-IsCounted dropping h = drop_channel-IsCounted h
Move-IsCounted hijacking h = same-IsCounted (ground arith) (ground arith) (ground arith) h
Move-IsCounted shutting h = same-IsCounted (ground arith) (ground arith) (ground arith) h
Move-IsCounted {c} awaiting h = same-IsCounted (hash-empty c.pending) refl refl h
Move-IsCounted (drained_now e) h = same-IsCounted refl refl refl h
Move-IsCounted stopping h = same-IsCounted (ground arith) (ground arith) (ground arith) h

pub Reached-IsCounted : {start c : Channel} → IsCounted start → Reached start c → IsCounted c
Reached-IsCounted h at_start = h
Reached-IsCounted h (and_then r m) = Move-IsCounted m (Reached-IsCounted h r)

pub new_channel-IsCounted : (size : ℕ) → IsCounted (new_channel size)
unfolding new_channel new_store
new_channel-IsCounted size = record { distinct = tt; counted = λ i. ground arith }

-- However the steps of a channel follow each other, each call that was made either waits in the store
-- or has got one outcome, never both and never two; no other call waits or gets an outcome.
pub answered_once :
    (size : ℕ) (c : Channel)
    → Reached (new_channel size) c
    → (i : ℕ)
    → times i (waiting_ids c) + times i (answered_ids c) ≡ (if ltb i c.next_call then 1 else 0)
answered_once size c r i = (Reached-IsCounted (new_channel-IsCounted size) r).counted i
