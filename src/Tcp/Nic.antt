-- ===== src/Tcp/Nic.antt =====
-- `symmetric_nic_tcp_main` of lancet/agents/tp_tcp.c: as the symmetric agent, but it sends as long as
-- it is late, and the times of sending and receiving are those of the network card.
pub mod Invariant
pub mod Run
use kata_load_test.Base.{
  ℕ, zero, suc, ◌+◌, ◌-◌, ◌*◌, Bool, true, false, not, Option, none, some, List, [], ◌∷◌,
  if◌then◌else◌, set, length, ltb, ◌==◌, wrap16, wrap32, Outcome, ok, stop, assert_failed, ◌>>=◌,
  ◌>>◌,
}
use kata_load_test.Base.Int.{ℤ, pos, ◌+ℤ◌, ◌-ℤ◌, ◌*ℤ◌, ltb_ℤ}
use kata_load_test.Timespec.{Timespec, timespec_diff, billion, is_zero}
use kata_load_test.Stats.State.{ByteReqPair, LatencyStats, TxSamples}
use kata_load_test.Stats.Samples.{
  add_throughput_tx_sample, add_throughput_rx_sample, add_latency_sample,
}
use kata_load_test.Timestamping.Pending.{
  PendingTxTimestamps, TimestampInfo, pop_pending_tx_timestamps, blind_skip_tx_timestamps,
  add_pending_tx_timestamp,
}
use kata_load_test.Timestamping.Extract.{Cmsg, ErrQueue, NicState, get_tx_timestamp, timestamp_recv}
use kata_load_test.AppProto.Response.{AppProto}
use kata_load_test.AppProto.Request.{create_request, request_bytes}
use kata_load_test.Tcp.Connection.{
  TcpConnection, SendResult, RecvResult, bytes, recv_would_block, recv_error, pick_conn,
}
use kata_load_test.Tcp.Receive.{receive}
use kata_load_test.Tcp.Thread.{Thread, connection, ring}
use kata_load_test.Tcp.Throughput.{check_sent}
use kata_load_test.Tcp.Symmetric.{time_of, read_error_queue}

-- What one pass of the sending loop depends on; `now` is the clock where `diff` is computed.
pub record Attempt : Type 0 where
  pub now : ℤ
  pub rand : ℕ → ℕ
  pub sample : ℕ
  pub send : SendResult
  pub measure_tx : Bool
  pub ia : ℤ

-- What the handling of a readable connection depends on. `recv` is the answer of `recvmsg`, with
-- its control messages; `stale_rx` what `rx_timestamp` held, for a `recvmsg` that gives nothing;
-- `errors` what the error queue holds if the send time is missing.
pub record NicReadable : Type 0 where
  pub recv : RecvResult
  pub cmsgs : List Cmsg
  pub stale_rx : Timespec
  pub errors : ErrQueue
  pub measure_stamp : Bool
  pub measure_latency : Bool
  pub skip_latency : Bool
  pub per_thread_samples : ℕ
  pub measure_rx : Bool

pub data NicEventKind : Type 0 where
  nic_readable : NicReadable → NicEventKind
  nic_error_queue : Bool → ErrQueue → NicEventKind
  nic_hangup nic_unknown : NicEventKind

pub record NicEvent : Type 0 where
  pub idx : ℕ
  pub kind : NicEventKind

-- `attempts i` is for pass `i` of the sending loop, and `idle_now` the clock when the agent should
-- not load.
pub record NicRound : Type 0 where
  pub load : Bool
  pub idle_now : ℤ
  pub attempts : ℕ → Attempt
  pub events : List NicEvent

-- The request is pending until the card gives its send time.
abbrev pub nic_pending : Attempt → ℕ → ℕ → TcpConnection → PendingTxTimestamps → Thread → Thread
nic_pending a idx n c p t = record t {
  connections = set t.connections idx (record c { pending_reqs = wrap16 (c.pending_reqs + 1) });
  per_conn_tx_timestamps = set t.per_conn_tx_timestamps c.idx (add_pending_tx_timestamp n p);
  avail_reqs = t.avail_reqs -ℤ pos 1;
  stats = add_throughput_tx_sample a.measure_tx (record { bytes = n; reqs = 1 }) t.stats;
  next_tx = t.next_tx +ℤ a.ia;
}

unfoldable pub nic_send : AppProto → Attempt → ℕ → Thread → Outcome Thread
unfolding add_throughput_tx_sample create_request add_pending_tx_timestamp
nic_send proto a idx t = do
  c ← connection t idx
  let (to_send, arg) = create_request proto a.sample t.per_thread_arg
  check_sent a.send (request_bytes to_send)
  p ← ring t c.idx
  ok (nic_pending a idx (request_bytes to_send) c p (record t { per_thread_arg = arg }))

-- The sending loop from pass `i` on, with fuel: `while (diff >= 0)`.
unfoldable pub nic_sends : ℕ → AppProto → (ℕ → Attempt) → ℕ → Thread → Outcome Thread
unfolding nic_send pick_conn
nic_sends zero proto attempts i t = ok t
nic_sends (suc fuel) proto attempts i t = elim (ltb_ℤ ((attempts i).now -ℤ t.next_tx) (pos 0)) [
  | true ↦ ok t
  | false ↦ (do
    picked ← pick_conn t.connections (length t.connections) (attempts i).rand
    elim picked [
      | none ↦ ok t
      | some idx ↦ nic_send proto (attempts i) idx t >>= nic_sends fuel proto attempts (i + 1)
    ])
]

-- Each pass sends a request, for which a connection must have room.
abbrev pub send_fuel : Thread → ℕ
send_fuel t = suc (16 * length t.connections)

unfoldable pub nic_load : AppProto → NicRound → Thread → Outcome Thread
unfolding nic_sends
nic_load proto r t =
    if is_zero t.avail_reqs then ok t else nic_sends (send_fuel t) proto r.attempts 0 t

-- The second attempt to get the send time, after `get_tx_timestamp`; failing that, the entry is
-- given up.
unfoldable pub retry_pop : NicReadable → NicState → Outcome (Option TimestampInfo × NicState)
unfolding get_tx_timestamp pop_pending_tx_timestamps
retry_pop e s = do
  (_, s') ← get_tx_timestamp e.measure_stamp e.errors s
  (tx_timestamp, q) ← pop_pending_tx_timestamps s'.ring
  ok (elim tx_timestamp [
    | none ↦ (none, record s' { ring = record q { consumed = wrap32 (q.consumed + 1) } })
    | some i ↦ (some i, record s' { ring = q })
  ])

unfoldable pub nic_pop : NicReadable → ℕ → NicState → Outcome (Option TimestampInfo × NicState)
unfolding retry_pop blind_skip_tx_timestamps
nic_pop e reqs s = do
  let skipped = if ltb 1 reqs then blind_skip_tx_timestamps (reqs - 1) s.ring else s.ring
  (tx_timestamp, q) ← pop_pending_tx_timestamps skipped
  elim tx_timestamp [
    | none ↦ retry_pop e (record s { ring = q })
    | some i ↦ ok (some i, record s { ring = q })
  ]

-- The latency is `latency.tv_nsec + latency.tv_sec * 1e9`, a double, which is exact below 2^53.
unfoldable pub nic_sample :
    NicReadable → Timespec → Option Timespec → LatencyStats → Outcome LatencyStats
unfolding add_latency_sample timespec_diff
nic_sample e rx tx s = elim (timespec_diff (some rx) tx) [
  | none ↦ ok s
  | some latency ↦
      add_latency_sample e.measure_latency e.skip_latency e.per_thread_samples
        (latency.nsec +ℤ latency.sec *ℤ billion) tx s
]

-- The receive time and `received_opid`, after `timestamp_recv`.
unfoldable pub nic_rx : NicReadable → ℕ → Outcome (Timespec × ℕ)
unfolding timestamp_recv
nic_rx e received_opid = elim e.recv [
  | bytes [] ↦ ok (e.stale_rx, received_opid)
  | bytes (b ∷ bs) ↦ timestamp_recv e.cmsgs received_opid
  | recv_would_block ↦ ok (e.stale_rx, received_opid)
  | recv_error ↦ ok (e.stale_rx, received_opid)
]

-- The send time is looked for and the latency sampled, for `reqs` responses on connection `c`.
unfoldable pub nic_match : NicReadable → Timespec → ℕ → TcpConnection → Thread → Outcome Thread
unfolding nic_pop nic_sample
nic_match e rx reqs c t = do
  p ← ring t c.idx
  (tx, s) ← nic_pop e reqs (record { ring = p; tx_s = t.tx_s; received_opid = t.received_opid })
  stats ← nic_sample e rx (time_of tx) t.stats
  ok (record t {
    per_conn_tx_timestamps = set t.per_conn_tx_timestamps c.idx s.ring;
    tx_s = s.tx_s;
    received_opid = s.received_opid;
    stats = stats;
  })

-- `avail_reqs += read_res.reqs` and the bookkeeping.
abbrev pub nic_account : NicReadable → ℕ → ByteReqPair → TcpConnection → Thread → Thread
nic_account e idx read_res c t = record t {
  connections = set t.connections idx c;
  avail_reqs = t.avail_reqs +ℤ pos read_res.reqs;
  stats = add_throughput_rx_sample e.measure_rx read_res t.stats;
}

unfoldable pub nic_read :
    NicReadable → Timespec → ℕ → Option ByteReqPair × TcpConnection → Thread → Outcome Thread
unfolding nic_match add_throughput_rx_sample
nic_read e rx idx (none, c) t = ok (record t { connections = set t.connections idx c })
nic_read e rx idx (some read_res, c) t = do
  t' ← nic_match e rx read_res.reqs c t
  ok (nic_account e idx read_res c t')

unfoldable pub nic_event : AppProto → NicEvent → Thread → Outcome Thread
unfolding nic_read nic_rx read_error_queue receive
nic_event proto ev t = do
  c ← connection t ev.idx
  elim ev.kind [
    | nic_readable e ↦ (do
      (rx, opid) ← nic_rx e t.received_opid
      got ← receive proto false e.recv c
      nic_read e rx ev.idx got (record t { received_opid = opid }))
    | nic_error_queue m q ↦ read_error_queue m q c t
    | nic_hangup ↦ stop assert_failed
    | nic_unknown ↦ ok t
  ]

unfoldable pub nic_events : AppProto → List NicEvent → Thread → Outcome Thread
unfolding nic_event
nic_events proto [] t = ok t
nic_events proto (e ∷ events) t = nic_event proto e t >>= nic_events proto events

unfoldable pub nic_round : AppProto → NicRound → Thread → Outcome Thread
unfolding nic_load nic_events
nic_round proto r t =
    if not r.load
    then ok (record t { next_tx = r.idle_now })
    else do t' ← nic_load proto r t; nic_events proto r.events t'

unfoldable pub nic_run : AppProto → List NicRound → Thread → Outcome Thread
unfolding nic_round
nic_run proto [] t = ok t
nic_run proto (r ∷ rounds) t = nic_round proto r t >>= nic_run proto rounds
