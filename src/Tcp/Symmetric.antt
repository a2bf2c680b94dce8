-- ===== src/Tcp/Symmetric.antt =====
-- `symmetric_tcp_main` of lancet/agents/tp_tcp.c: one round of its loop, and a run of rounds. It
-- stamps each request when it is sent and takes a latency sample for the last request of each batch
-- of responses.
pub mod Match
pub mod Links
pub mod Log
pub mod Invariant
pub mod Run
use kata_load_test.Base.{
  ℕ, ◌+◌, ◌-◌, Bool, true, false, not, Option, none, some, List, [], ◌∷◌, if◌then◌else◌, set,
  length, ltb, wrap16, Outcome, ok, stop, assert_failed, ◌>>=◌, ◌>>◌, assert,
}
use kata_load_test.Base.Int.{ℤ, pos, ◌+ℤ◌, ◌-ℤ◌, ltb_ℤ}
use kata_load_test.Timespec.{Timespec, is_zero, timespec_diff}
use kata_load_test.Stats.State.{ByteReqPair, LatencyStats}
use kata_load_test.Stats.Samples.{
  add_throughput_tx_sample, add_throughput_rx_sample, add_latency_sample,
}
use kata_load_test.Timestamping.Pending.{
  PendingTxTimestamps, TimestampInfo, pop_pending_tx_timestamps, blind_skip_tx_timestamps,
  push_complete_tx_timestamp,
}
use kata_load_test.Timestamping.Extract.{ErrQueue, NicState, get_tx_timestamp}
use kata_load_test.AppProto.Response.{AppProto}
use kata_load_test.AppProto.Request.{create_request, request_bytes}
use kata_load_test.Tcp.Connection.{TcpConnection, pick_conn}
use kata_load_test.Tcp.Receive.{receive}
use kata_load_test.Tcp.Thread.{
  Thread, Readable, EventKind, readable, error_queue, hangup, unknown, Event, Round, connection,
  ring,
}
use kata_load_test.Tcp.Throughput.{check_sent, account_sent, account_read}

-- `push_complete_tx_timestamp` for the connection's ring, then the accounting as in the throughput
-- agent.
abbrev pub stamp_sent : Round → ℕ → ℕ → TcpConnection → PendingTxTimestamps → Thread → Thread
stamp_sent r idx n c p t =
    let stamped = push_complete_tx_timestamp r.measure_stamp r.tx_timestamp p t.tx_s in
    account_sent r idx n c (record t {
      per_conn_tx_timestamps = set t.per_conn_tx_timestamps c.idx stamped.0;
      tx_s = stamped.1;
    })

unfoldable pub symmetric_send : AppProto → Round → ℕ → Thread → Outcome Thread
unfolding add_throughput_tx_sample create_request push_complete_tx_timestamp
symmetric_send proto r idx t = do
  c ← connection t idx
  let (to_send, arg) = create_request proto r.sample t.per_thread_arg
  check_sent r.send (request_bytes to_send)
  p ← ring t c.idx
  ok (stamp_sent r idx (request_bytes to_send) c p (record t { per_thread_arg = arg }))

-- `&pending_tx->time`, a null pointer for a null `pending_tx`, since `time` is the first field.
abbrev pub time_of : Option TimestampInfo → Option Timespec
time_of none = none
time_of (some i) = some i.time

-- The latency sample, unless there is no send time.
unfoldable pub sample_latency : Readable → Option Timespec → LatencyStats → Outcome LatencyStats
unfolding add_latency_sample
sample_latency e tx s = elim (timespec_diff (some e.rx_timestamp) tx) [
  | none ↦ ok s
  | some latency ↦ (do
    assert (is_zero latency.sec)
    add_latency_sample e.measure_latency e.skip_latency e.per_thread_samples latency.nsec tx s)
]

-- From `blind_skip_tx_timestamps` to `add_latency_sample`, for `reqs` responses.
unfoldable pub match_responses :
    Readable → ℕ → PendingTxTimestamps → LatencyStats → Outcome (PendingTxTimestamps × LatencyStats)
match_responses e reqs p s = do
  let skipped = if ltb 1 reqs then blind_skip_tx_timestamps (reqs - 1) p else p
  (pending_tx, q) ← pop_pending_tx_timestamps skipped
  s' ← sample_latency e (time_of pending_tx) s
  ok (q, s')

-- The rest of the handling of a readable connection, after `receive`.
unfoldable pub symmetric_read :
    Readable → ℕ → Option ByteReqPair × TcpConnection → Thread → Outcome Thread
unfolding match_responses add_throughput_rx_sample
symmetric_read e idx (none, c) t = ok (account_read e idx (none, c) t)
symmetric_read e idx (some read_res, c) t = do
  p ← ring t c.idx
  (q, s) ← match_responses e read_res.reqs p t.stats
  ok (
      account_read e idx (some read_res, c)
        (record t { per_conn_tx_timestamps = set t.per_conn_tx_timestamps c.idx q; stats = s }))

-- `get_tx_timestamp` for the connection's ring.
unfoldable pub read_error_queue : Bool → ErrQueue → TcpConnection → Thread → Outcome Thread
unfolding get_tx_timestamp
read_error_queue m q c t = do
  p ← ring t c.idx
  (n, s) ←
      get_tx_timestamp m q (record { ring = p; tx_s = t.tx_s; received_opid = t.received_opid })
  ok (record t {
    per_conn_tx_timestamps = set t.per_conn_tx_timestamps c.idx s.ring;
    tx_s = s.tx_s;
    received_opid = s.received_opid;
  })

unfoldable pub symmetric_event : AppProto → Event → Thread → Outcome Thread
unfolding symmetric_read read_error_queue receive
symmetric_event proto ev t = do
  c ← connection t ev.idx
  elim ev.kind [
    | readable e ↦ (do got ← receive proto false e.recv c; symmetric_read e ev.idx got t)
    | error_queue m q ↦ read_error_queue m q c t
    | hangup ↦ stop assert_failed
    | unknown ↦ ok t
  ]

unfoldable pub symmetric_events : AppProto → List Event → Thread → Outcome Thread
unfolding symmetric_event
symmetric_events proto [] t = ok t
symmetric_events proto (e ∷ events) t = symmetric_event proto e t >>= symmetric_events proto events

unfoldable pub symmetric_load : AppProto → Round → Thread → Outcome Thread
unfolding symmetric_send pick_conn
symmetric_load proto r t = if ltb_ℤ (r.now -ℤ t.next_tx) (pos 0) then ok t else do
  picked ← pick_conn t.connections (length t.connections) r.rand
  elim picked [ none ↦ ok t | some idx ↦ symmetric_send proto r idx t ]

unfoldable pub symmetric_round : AppProto → Round → Thread → Outcome Thread
unfolding symmetric_load symmetric_events
symmetric_round proto r t =
    if not r.load
    then ok (record t { next_tx = r.now })
    else do t' ← symmetric_load proto r t; symmetric_events proto r.events t'

unfoldable pub symmetric_run : AppProto → List Round → Thread → Outcome Thread
unfolding symmetric_round
symmetric_run proto [] t = ok t
symmetric_run proto (r ∷ rounds) t = symmetric_round proto r t >>= symmetric_run proto rounds
