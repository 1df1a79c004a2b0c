-- ===== src/Tests/Channels.antt =====
-- A channel and its writer in concrete runs.
use activerecord.Prelude.{
  length, ℕ, ◌+◌, ◌*◌, ◌^◌, ◌≤◌, ◌<◌, List, [], ◌∷◌, ◌++◌, some, Bool, true, false, ltb,
  if◌then◌else◌, ◌≡◌, ◌⊎◌, refl, arith, inl, times,
}
use activerecord.Go.{Bytes, ok}
use activerecord.Iproto.Store.{new_store, push, free_sync, add_entry, lookup}
use activerecord.Iproto.Channel.{
  Begun, Channel, err_stopped, new_channel, begin_call, begin_with, drop_channel, drop_now,
  reject_calls, refused, refuse_call, draining, drained,
}
use activerecord.Iproto.Channel.Steps.{Reached, at_start, and_then, calling, dropping}
use activerecord.Iproto.Channel.Once.{stopper_closed_once}
use activerecord.Iproto.Channel.Settled.{AllAmong, is_over, pending_when_over}
use activerecord.Iproto.Channel.Answers.{waiting_ids, answered_ids, once, answered_once}
use activerecord.Iproto.Channel.Ends.{Refusals, no_refusal, one_more, calls_end}
use activerecord.Iproto.Channel.Writer.{
  Writer, flush, append_packet, append_packets, flush_if_idle, gather, round,
}
use activerecord.Iproto.Channel.Writer.Order.{taken, IsReady, round_keeps, last_round_holds}

abbrev one_begun : Begun
one_begun = record { id = 0; method = 7; sync = 1 }

abbrev calling_channel : Channel
calling_channel = record (new_channel 4) {
  pending = record (new_store) { hash = (7 * 2 ^ 32 + 1, 0) ∷ []; sync = 1 };
  next_call = 1;
  begun = one_begun ∷ [];
}

call_begun : begin_call (new_channel 4) 7 ≡ some (calling_channel, one_begun)
unfolding begin_call begin_with new_channel new_store push free_sync add_entry lookup
call_begun = refl

abbrev called : Reached (new_channel 4) calling_channel
called = and_then at_start (calling 7 one_begun call_begun)

abbrev dropped_channel : Channel
dropped_channel = drop_channel calling_channel

abbrev gone : Reached (new_channel 4) dropped_channel
gone = and_then called dropping

is_gone : is_over dropped_channel ≡ true
unfolding drop_channel drop_now reject_calls new_channel
is_gone = refl

stopper_closed_once_example :
    (dropped_channel.stopper_closes ≤ 1)
    × (dropped_channel.stopped ≡ false → dropped_channel.stopper_closes ≡ 0)
    × (dropped_channel.dropped ≡ true → dropped_channel.stopped ≡ true)
    × (dropped_channel.stopped ≡ true
        → (dropped_channel.stopper_closes ≡ 1)
          ⊎ ((dropped_channel.phase ≡ draining) ⊎ (dropped_channel.phase ≡ drained)))
stopper_closed_once_example = stopper_closed_once 4 dropped_channel gone

pending_when_over_example :
    AllAmong dropped_channel.pending.hash dropped_channel.begun
    × (refused dropped_channel ≡ some err_stopped)
pending_when_over_example = pending_when_over 4 dropped_channel gone is_gone

answered_once_example :
    times 0 (waiting_ids dropped_channel) + times 0 (answered_ids dropped_channel)
    ≡ (if ltb 0 dropped_channel.next_call then 1 else 0)
answered_once_example = answered_once 4 dropped_channel gone 0

abbrev refused_channel : Channel
refused_channel = refuse_call [] one_begun [] err_stopped dropped_channel

refused_one : Refusals dropped_channel 1 refused_channel
unfolding drop_channel drop_now reject_calls refused new_channel
refused_one = one_more [] [] one_begun err_stopped no_refusal refl refl

calls_end_example :
    ((1 < length dropped_channel.begun) × (m : Channel) × Refusals dropped_channel 2 m)
    ⊎ ((1 ≡ length dropped_channel.begun)
        × (refused_channel.pending.hash ≡ [])
        × ((i : ℕ) → times i (answered_ids refused_channel) ≡ once i dropped_channel.next_call))
calls_end_example = calls_end 4 1 dropped_channel refused_channel gone is_gone refused_one

abbrev takes_all : List Bytes → Bool
takes_all ps = true

abbrev first_packet : Bytes
first_packet = 1 ∷ 2 ∷ []

abbrev late_packet : Bytes
late_packet = 3 ∷ []

abbrev a_writer : Writer
a_writer = record {
  queue = first_packet ∷ [];
  buffers = record { held = []; n = 0; limit = 10; sent = [] };
  stopping = false;
}

abbrev after_round : Writer
after_round = record {
  queue = [];
  buffers = record { held = []; n = 0; limit = 10; sent = first_packet ∷ [] };
  stopping = false;
}

round_run : round takes_all false [] a_writer ≡ ok after_round
unfolding round gather append_packets append_packet flush_if_idle flush
round_run = refl

a_writer_ready : IsReady takes_all a_writer
a_writer_ready = (record { measured = refl; headed = tt }, (omega arith, tt), inl refl)

round_keeps_example :
    ((taken after_round.buffers ++ after_round.queue)
      ≡ (taken a_writer.buffers ++ (a_writer.queue ++ [])))
    × IsReady takes_all after_round
    × (◌≡◌ {A = List Bytes} [] [] → after_round.buffers.held ≡ [])
round_keeps_example =
    round_keeps takes_all false [] a_writer after_round round_run a_writer_ready tt

last_round_holds_example :
    (w' : Writer) × (round takes_all true (late_packet ∷ []) a_writer ≡ ok w')
    × (w'.stopping ≡ true)
    × (w'.buffers.sent ≡ a_writer.buffers.sent)
    × (w'.buffers.held ≡ a_writer.buffers.held ++ (first_packet ∷ []))
last_round_holds_example =
    last_round_holds takes_all first_packet late_packet [] [] a_writer refl (omega arith)
