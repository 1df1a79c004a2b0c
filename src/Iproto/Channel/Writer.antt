-- ===== src/Iproto/Channel/Writer.antt =====
-- The writer of a channel (pkg/iproto/iproto/channel.go) and its buffers (writer.go): packets are taken
-- out of c.out, gathered, and given to the connection together. Whether the connection takes what a
-- flush gives it is the parameter `works`.
pub mod Order
use activerecord.Prelude.{
  ℕ, ◌+◌, List, [], ◌∷◌, ◌++◌, length, Bool, true, false, ◌==◌, ltb, if◌then◌else◌,
}
use activerecord.Go.{Result, ok, err, panic, Bytes, ◌>>=◌}
use activerecord.Iproto.Channel.{Cause, write_failed}

-- `sent` has what the connection took, in order; `held` is what waits for a flush, `n` its length.
pub record Buffers : Type 0 where
  pub held : List Bytes
  pub n : ℕ
  pub limit : ℕ
  pub sent : List Bytes

pub record Writer : Type 0 where
  pub queue : List Bytes
  pub buffers : Buffers
  pub stopping : Bool

module _ (works : List Bytes → Bool) where
  unfoldable pub flush : Buffers → Result Cause Buffers
  flush b =
      if b.n == 0
      then ok b
      else if works b.held
      then ok (record b { held = []; n = 0; sent = b.sent ++ b.held })
      else err write_failed

  unfoldable pub append_packet : Bytes → Buffers → Result Cause Buffers
  append_packet p b =
      let b' : Buffers = record b { held = b.held ++ (p ∷ []); n = b.n + length p } in
      if ltb b'.limit b'.n then flush b' else ok b'

  -- The inner loop: the packet that was taken, and those that were in the queue then.
  unfoldable pub append_packets : List Bytes → Buffers → Result Cause Buffers
  append_packets [] b = ok b
  append_packets (p ∷ ps) b = do b' ← append_packet p b; append_packets ps b'

  -- Nothing is flushed while the queue has packets.
  unfoldable pub flush_if_idle : List Bytes → Buffers → Result Cause Buffers
  flush_if_idle [] b = flush b
  flush_if_idle (p ∷ ps) b = ok b

  -- A round in which the queue was `ps` and `arrived` was queued before the test of its length.
  unfoldable pub gather : List Bytes → List Bytes → Writer → Result Cause Writer
  gather [] arrived w = ok (record w { queue = arrived })
  gather (p ∷ ps) arrived w = do
    b ← append_packets (p ∷ ps) w.buffers
    b' ← flush_if_idle arrived b
    ok (record w { queue = arrived; buffers = b' })

  -- The round begins with a packet of the queue, or with the stopper.
  unfoldable pub round : Bool → List Bytes → Writer → Result Cause Writer
  round stopper arrived w = gather w.queue arrived (record w { stopping = stopper })
