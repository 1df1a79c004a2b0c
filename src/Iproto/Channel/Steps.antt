-- ===== src/Iproto/Channel/Steps.antt =====
-- The steps of a channel, in any order. A call may be resolved at any time: by an answer, a timeout or
-- the end of its context. A call that is refused may give any cause.
use activerecord.Prelude.{ℕ, List, [], ◌∷◌, ◌++◌, Option, none, some, Bool, false, ◌≡◌}
use activerecord.Iproto.Packet.{Packet}
use activerecord.Iproto.Store.{empty}
use activerecord.Iproto.Channel.{
  Cause, Outcome, Begun, Channel, enqueue, begin_call, resolve_call, refused, pass_call,
  refuse_call, send, drop_channel, save_error, hijack, begin_shutdown, calls_drained, stop_writer,
  receive_other, ping,
}

pub data Move : Channel → Channel → Type 0 where
  calling :
      {c d : Channel} (method : ℕ) (call : Begun) → begin_call c method ≡ some (d, call) → Move c d
  passing :
      {c : Channel} (before after : List Begun) (call : Begun)
      → c.begun ≡ before ++ (call ∷ after)
      → refused c ≡ none
      → Move c (pass_call before after c)
  refusing :
      {c : Channel} (before after : List Begun) (call : Begun) (e : Cause)
      → c.begun ≡ before ++ (call ∷ after)
      → Move c (refuse_call before call after e c)
  queueing : {c d : Channel} (p : Packet) → enqueue c p ≡ some d → Move c d
  resolving : {c : Channel} (method sync : ℕ) (o : Outcome) → Move c (resolve_call c method sync o)
  sending :
      {c : Channel} (force : Bool) (given_up : Option Cause) (p : Packet)
      → Move c (send force given_up p c).0
  writing :
      {c : Channel} (p : Packet) (ps : List Packet)
      → c.out ≡ p ∷ ps
      → Move c (record c { out = ps })
  receiving : {c : Channel} (handler : Bool) (p : Packet) → Move c (receive_other handler c p).0
  pinging : {c : Channel} (d now : ℕ) → Move c (ping d now c).0
  saving : {c : Channel} (e : Cause) → c.dropped ≡ false → Move c (save_error c e)
  dropping : {c : Channel} → Move c (drop_channel c)
  hijacking : {c : Channel} → Move c (hijack c).0
  shutting : {c : Channel} → Move c (begin_shutdown c)
  awaiting : {c : Channel} → Move c (record c { pending = (empty c.pending).0 })
  drained_now : {c : Channel} → c.pending.hash ≡ [] → Move c (calls_drained c)
  stopping : {c : Channel} → Move c (stop_writer c)

pub data Reached (start : Channel) : Channel → Type 0 where
  at_start : Reached start start
  and_then : {c d : Channel} → Reached start c → Move c d → Reached start d
