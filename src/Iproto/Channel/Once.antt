-- ===== src/Iproto/Channel/Once.antt =====
-- The stopper is closed once.
use activerecord.Prelude.{ℕ, ◌+◌, ◌≤◌, Option, Bool, true, false, ◌≡◌, refl, ◌⊎◌, inl, arith}
use activerecord.Iproto.Packet.{Packet}
use activerecord.Iproto.Channel.{
  Cause, Phase, idle, draining, drained, ended, Channel, new_channel, enqueue, begin_call,
  begin_with, answer, resolve_call, refused, pass_call, refuse_call, send, reject_calls, drop_now,
  drop_channel, save_error, fatal, hijack, begin_shutdown, calls_drained, stop_writer, receive_ping,
  receive_shutdown, receive_other, ping, ping_missed,
}
use activerecord.Iproto.Channel.Steps.{
  Move, Reached, at_start, and_then, calling, passing, refusing, queueing, resolving, sending,
  writing, receiving, pinging, saving, dropping, hijacking, shutting, awaiting, drained_now,
  stopping,
}

-- The closes of the stopper that are still due.
abbrev pub due : Phase → ℕ
due idle = 0
due draining = 1
due drained = 1
due ended = 0

abbrev pub flag : Bool → ℕ
flag true = 1
flag false = 0

pub record IsOnce (c : Channel) : Type 0 where
  pub closes : due c.phase + c.stopper_closes ≡ flag c.stopped
  pub stops : (c.dropped ≡ false) ⊎ (c.stopped ≡ true)
  pub started : (c.phase ≡ idle) ⊎ (c.stopped ≡ true)

drop_channel-IsOnce : {c : Channel} → IsOnce c → IsOnce (drop_channel c)
unfolding drop_channel drop_now reject_calls
drop_channel-IsOnce h = ground arith

send-IsOnce :
    {c : Channel} (force : Bool) (g : Option Cause) (p : Packet)
    → IsOnce c
    → IsOnce (send force g p c).0
unfolding send enqueue refused
send-IsOnce force g p h = ground arith

receive_other-IsOnce :
    {c : Channel} (handler : Bool) (p : Packet) → IsOnce c → IsOnce (receive_other handler c p).0
unfolding receive_other receive_ping receive_shutdown
receive_other-IsOnce handler p h = ground arith

fatal-IsOnce : {c : Channel} (e : Cause) → IsOnce c → IsOnce (fatal c e)
unfolding fatal save_error
fatal-IsOnce {c} e h = ground (
  arith,
  drop_channel-IsOnce h,
  drop_channel-IsOnce {c = save_error c e}
      (record { closes = h.closes; stops = h.stops; started = h.started }),
)

ping-IsOnce : {c : Channel} (d now : ℕ) → IsOnce c → IsOnce (ping d now c).0
unfolding ping
ping-IsOnce {c} d now h = ground (arith, fatal-IsOnce ping_missed h)

phases-IsOnce :
    {c : Channel}
    → IsOnce c
    → IsOnce (begin_shutdown c) × IsOnce (calls_drained c) × IsOnce (stop_writer c)
unfolding begin_shutdown calls_drained stop_writer
phases-IsOnce h = (ground arith, ground arith, ground arith)

Move-IsOnce : {c d : Channel} → Move c d → IsOnce c → IsOnce d
unfolding begin_call begin_with enqueue pass_call refuse_call resolve_call answer save_error hijack
    refused
Move-IsOnce (calling method call e) h = ground arith
Move-IsOnce (passing before after call e f) h = record {
  closes = h.closes;
  stops = h.stops;
  started = h.started;
}
Move-IsOnce (refusing before after call e f) h = record {
  closes = h.closes;
  stops = h.stops;
  started = h.started;
}
Move-IsOnce (queueing p e) h = ground arith
Move-IsOnce (resolving method sync o) h = record {
  closes = h.closes;
  stops = h.stops;
  started = h.started;
}
Move-IsOnce (sending force g p) h = send-IsOnce force g p h
Move-IsOnce (writing p ps e) h = record { closes = h.closes; stops = h.stops; started = h.started }
Move-IsOnce (receiving handler p) h = receive_other-IsOnce handler p h
Move-IsOnce (pinging d now) h = ping-IsOnce d now h
Move-IsOnce (saving e f) h = record { closes = h.closes; stops = h.stops; started = h.started }
Move-IsOnce dropping h = drop_channel-IsOnce h
Move-IsOnce hijacking h = ground arith
Move-IsOnce shutting h = (phases-IsOnce h).0
Move-IsOnce awaiting h = record { closes = h.closes; stops = h.stops; started = h.started }
Move-IsOnce (drained_now e) h = (phases-IsOnce h).1
Move-IsOnce stopping h = (phases-IsOnce h).2

pub Reached-IsOnce : {start c : Channel} → IsOnce start → Reached start c → IsOnce c
Reached-IsOnce h at_start = h
Reached-IsOnce h (and_then r m) = Move-IsOnce m (Reached-IsOnce h r)

pub new_channel-IsOnce : (size : ℕ) → IsOnce (new_channel size)
unfolding new_channel
new_channel-IsOnce size = record { closes = refl; stops = inl refl; started = inl refl }

-- However the steps of a channel follow each other, its stopper is closed at most once (a second close
-- would panic), only after the channel was stopped; a channel that is dropped is stopped; and when the
-- channel is stopped, either the stopper was closed or Shutdown is still to close it.
pub stopper_closed_once :
    (size : ℕ) (c : Channel)
    → Reached (new_channel size) c
    → (c.stopper_closes ≤ 1)
      × (c.stopped ≡ false → c.stopper_closes ≡ 0)
      × (c.dropped ≡ true → c.stopped ≡ true)
      × (c.stopped ≡ true → (c.stopper_closes ≡ 1) ⊎ ((c.phase ≡ draining) ⊎ (c.phase ≡ drained)))
stopper_closed_once size c r =
    let h = Reached-IsOnce (new_channel-IsOnce size) r in
    (ground arith, ground arith, ground arith, ground arith)
