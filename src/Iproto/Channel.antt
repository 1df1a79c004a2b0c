-- ===== src/Iproto/Channel.antt =====
-- pkg/iproto/iproto/channel.go: what the goroutines of a channel do to its shared state. A part that
-- holds the mutex, and one operation on a Go channel or on the store of pending calls, is one step;
-- child Steps has the steps in any order. The connection, its writer, callbacks and timers are not in
-- the state. A time is a number; a `none` in last_ping stands for the zero time.
pub mod Steps
pub mod Calling
pub mod Answers
pub mod Settled
pub mod Once
pub mod Ends
pub mod Writer
use activerecord.Prelude.{
  ℕ, suc, ◌+◌, ◌-◌, ◌*◌, List, [], ◌∷◌, ◌++◌, length, map, Option, none, some, Bool, true, false,
  not, ◌==◌, ◌&&◌, ◌||◌, ltb, if◌then◌else◌,
}
use activerecord.Go.{Bytes}
use activerecord.Iproto.Packet.{Header, Packet}
use activerecord.Iproto.Store.{Store, code, new_store, push, resolve, reject_all}

-- Why a call or the channel failed.
pub data Cause : Type 0 where
  err_stopped err_hijacked err_timeout err_dropped_conn err_canceled : Cause
  read_failed write_failed inactivity ping_missed : Cause

pub data Outcome : Type 0 where
  answered : Bytes → Outcome
  failed : Cause → Outcome

-- A call between the push of its callback and the test of `stopped` in send.
pub record Begun : Type 0 where
  pub id : ℕ
  pub method : ℕ
  pub sync : ℕ

-- Shutdown, in the one goroutine that sets `stopped`: it waits for the pending calls, it sends the
-- shutdown packet and waits for the peer's, it has closed the stopper.
pub data Phase : Type 0 where
  idle draining drained ended : Phase

-- `answers` has what was sent to the channel of each call, the last first. `shutdown` tells whether
-- the buffer of the channel of that name is taken, `hijack_buffer` has packets whose bytes it holds, `stopper_closes` how often the stopper was closed.
pub record Channel : Type 0 where
  pub queue_size : ℕ
  pub stopped : Bool
  pub dropped : Bool
  pub hijacked : Bool
  pub pending : Store ℕ
  pub next_call : ℕ
  pub begun : List Begun
  pub answers : List (ℕ × Outcome)
  pub out : List Packet
  pub hijack_buffer : List Packet
  pub shutdown : Bool
  pub phase : Phase
  pub stopper_closes : ℕ
  pub error : Option Cause
  pub last_ping : Option ℕ

unfoldable pub new_channel : ℕ → Channel
new_channel size = record {
  queue_size = size;
  stopped = false;
  dropped = false;
  hijacked = false;
  pending = new_store;
  next_call = 0;
  begun = [];
  answers = [];
  out = [];
  hijack_buffer = [];
  shutdown = false;
  phase = idle;
  stopper_closes = 0;
  error = none;
  last_ping = none;
}

-- `c.out <- p`, if there is room.
unfoldable pub enqueue : Channel → Packet → Option Channel
enqueue c p =
    if ltb (length c.out) c.queue_size then some (record c { out = c.out ++ (p ∷ []) }) else none

abbrev pub begun_call : Channel → ℕ → ℕ → Begun
begun_call c method sync = record { id = c.next_call; method = method; sync = sync }

unfoldable pub begin_with : Channel → ℕ → Store ℕ × ℕ → Channel × Begun
begin_with c method r = (
  record c {
    pending = r.0;
    next_call = suc c.next_call;
    begun = begun_call c method r.1 ∷ c.begun;
  },
  begun_call c method r.1,
)

-- Call up to the push; `none` if the store finds no sync id.
unfoldable pub begin_call : Channel → ℕ → Option (Channel × Begun)
begin_call c method = elim (push c.pending method c.next_call) [
  | none ↦ none
  | some r ↦ some (begin_with c method r)
]

-- The callback of a call gets the outcome, if the store has one.
unfoldable pub noted : Option ℕ → Outcome → List (ℕ × Outcome) → List (ℕ × Outcome)
noted none o answers = answers
noted (some id) o answers = (id, o) ∷ answers

unfoldable pub answer : Channel → Store ℕ × Option ℕ → Outcome → Channel
answer c r o = record c { pending = r.0; answers = noted r.1 o c.answers }

unfoldable pub resolve_call : Channel → ℕ → ℕ → Outcome → Channel
resolve_call c method sync o = answer c (resolve c.pending method sync) o

-- The test at the head of send, without force.
unfoldable pub refused : Channel → Option Cause
refused c = if c.stopped then some err_stopped else if c.hijacked then some err_hijacked else none

-- A call passes the test, and a call that did not pass it resolves itself; `before` and `after` are
-- the calls that stand before and behind it in `begun`.
unfoldable pub pass_call : List Begun → List Begun → Channel → Channel
pass_call before after c = record c { begun = before ++ after }

unfoldable pub refuse_call : List Begun → Begun → List Begun → Cause → Channel → Channel
refuse_call before call after e c = record (resolve_call c call.method call.sync (failed e)) {
  begun = before ++ after;
}

-- Notify and Send: a packet of its own, or the cause why not. `given_up` is the case of the blocked
-- select that is taken, if it is not the packet.
unfoldable pub send : Bool → Option Cause → Packet → Channel → Channel × Option Cause
send force given_up p c = elim (if force then none else refused c) [
  | some e ↦ (c, some e)
  | none ↦ elim (enqueue c p) [ some c' ↦ (c', none) | none ↦ (c, given_up) ]
]

unfoldable pub reject_calls : Channel → Store ℕ × List ℕ → Cause → Channel
reject_calls c r e = record c {
  pending = r.0;
  answers = map (λ id. (id, failed e)) r.1 ++ c.answers;
}

unfoldable pub drop_now : Channel → Channel
drop_now c =
    reject_calls
      (record c {
        dropped = true;
        stopped = true;
        stopper_closes = if c.stopped then c.stopper_closes else suc c.stopper_closes;
      })
      (reject_all c.pending) err_dropped_conn

-- Drop up to the goroutine that it starts.
unfoldable pub drop_channel : Channel → Channel
drop_channel c = if c.dropped then c else drop_now c

unfoldable pub save_error : Channel → Cause → Channel
save_error c e = record c { error = elim c.error [ none ↦ some e | some e' ↦ some e' ] }

unfoldable pub fatal : Channel → Cause → Channel
fatal c e = drop_channel (if c.dropped then c else save_error c e)

-- Hijack up to its call of Shutdown.
unfoldable pub hijack : Channel → Channel × Option Cause
hijack c = elim (refused c) [ some e ↦ (c, some e) | none ↦ (record c { hijacked = true }, none) ]

-- Shutdown: setting `stopped`, the event that the store is empty, and closing the stopper.
unfoldable pub begin_shutdown : Channel → Channel
begin_shutdown c = if c.stopped then c else record c { stopped = true; phase = draining }

abbrev pub when_drained : Phase → Phase
when_drained idle = idle
when_drained draining = drained
when_drained drained = drained
when_drained ended = ended

unfoldable pub calls_drained : Channel → Channel
calls_drained c = record c { phase = when_drained c.phase }

unfoldable pub stop_writer : Channel → Channel
stop_writer c = elim (c.phase) [
  | drained ↦ record c { phase = ended; stopper_closes = suc c.stopper_closes }
  | _ ↦ c
]

-- What the reader does for a packet beside the change of the state.
pub data Effect : Type 0 where
  nothing start_shutdown warn : Effect
  send_ping : ℕ → Effect
  serve : Packet → Effect

abbrev pub message_ping : ℕ
message_ping = 0xff00

abbrev pub message_shutdown : ℕ
message_shutdown = 0xff01

unfoldable pub receive_ping : Channel → Packet → Channel × Effect
receive_ping c p = (
  record c { last_ping = none },
  elim (c.last_ping) [
    | none ↦ send_ping p.header.sync
    | some t ↦ if p.header.sync == 0 then nothing else send_ping p.header.sync
  ],
)

-- The buffer of the channel `shutdown` takes one.
unfoldable pub receive_shutdown : Channel → Channel × Effect
receive_shutdown c =
    if c.shutdown
    then (c, warn)
    else (record c { shutdown = true }, if c.stopped then nothing else start_shutdown)

-- A packet that is not the answer to a call.
unfoldable pub receive_other : Bool → Channel → Packet → Channel × Effect
receive_other handler c p =
    if c.hijacked
    then (record c { hijack_buffer = c.hijack_buffer ++ (p ∷ []) }, nothing)
    else if p.header.msg == message_ping
    then receive_ping c p
    else if p.header.msg == message_shutdown
    then receive_shutdown c
    else (c, if not c.dropped && handler then serve p else nothing)

unfoldable pub received : Bool → Channel → Packet → Store ℕ × Option ℕ → Channel × Effect
received handler c p (s, none) = receive_other handler (record c { pending = s }) p
received handler c p (s, some id) = (answer c (s, some id) (answered p.body), nothing)

-- One round of the reader; `handler` tells whether the configuration has a handler.
unfoldable pub receive : Bool → Channel → Packet → Channel × Effect
receive handler c p = received handler c p (resolve c.pending p.header.msg p.header.sync)

-- The timer of pings, at the time `now`: whether a ping is sent (Notify).
unfoldable pub ping : ℕ → ℕ → Channel → Channel × Bool
ping d now c = if c.dropped then (c, false) else elim (c.last_ping) [
  | none ↦ (record c { last_ping = some now }, true)
  | some t ↦ if ltb (2 * d) (now - t) then (fatal c ping_missed, false) else (c, now == t)
]
