-- ===== src/Tcp/Throughput.antt =====
-- `throughput_tcp_main` of lancet/agents/tp_tcp.c: one round of its loop, and a run of rounds.
pub mod Invariant
use kata_load_test.Base.{
  ℕ, ◌+◌, Bool, true, false, not, Option, none, some, List, [], ◌∷◌, if◌then◌else◌, set, length,
  wrap16, ◌==◌, ltb, Outcome, ok, stop, assert_failed, left_main, ◌>>=◌, ◌>>◌, assert,
}
use kata_load_test.Base.Int.{ℤ, pos, ◌+ℤ◌, ◌-ℤ◌, ltb_ℤ}
use kata_load_test.Stats.State.{ByteReqPair}
use kata_load_test.Stats.Samples.{add_throughput_tx_sample, add_throughput_rx_sample}
use kata_load_test.AppProto.Response.{AppProto}
use kata_load_test.AppProto.Request.{create_request, request_bytes, Request, PerThread}
use kata_load_test.Tcp.Connection.{
  TcpConnection, SendResult, sent, send_would_block, send_error, pick_conn,
}
use kata_load_test.Tcp.Receive.{receive}
use kata_load_test.Tcp.Thread.{
  Thread, Readable, EventKind, readable, error_queue, hangup, unknown, Event, Round, connection,
}

-- The result of the write, which must be the whole request; with EWOULDBLOCK it is -1.
abbrev pub check_sent : SendResult → ℕ → Outcome (Unit {0})
check_sent send_error bytes_to_send = stop left_main
check_sent send_would_block bytes_to_send = stop assert_failed
check_sent (sent n) bytes_to_send = assert (n == bytes_to_send)

-- `conn->pending_reqs++; avail_reqs--;`, the bookkeeping and the next send time.
abbrev pub account_sent : Round → ℕ → ℕ → TcpConnection → Thread → Thread
account_sent r idx n c t = record t {
  connections = set t.connections idx (record c { pending_reqs = wrap16 (c.pending_reqs + 1) });
  avail_reqs = t.avail_reqs -ℤ pos 1;
  stats = add_throughput_tx_sample r.measure_tx (record { bytes = n; reqs = 1 }) t.stats;
  next_tx = t.next_tx +ℤ r.ia;
}

-- The sending part for the picked connection.
unfoldable pub throughput_send : AppProto → Round → ℕ → Thread → Outcome Thread
unfolding add_throughput_tx_sample create_request
throughput_send proto r idx t = do
  c ← connection t idx
  let (to_send, arg) = create_request proto r.sample t.per_thread_arg
  check_sent r.send (request_bytes to_send)
  ok (account_sent r idx (request_bytes to_send) c (record t { per_thread_arg = arg }))

-- `avail_reqs += read_res.reqs` and the bookkeeping, unless the peer has closed the connection.
abbrev pub account_read : Readable → ℕ → Option ByteReqPair × TcpConnection → Thread → Thread
account_read e idx (none, c) t = record t { connections = set t.connections idx c }
account_read e idx (some read_res, c) t = record t {
  connections = set t.connections idx c;
  avail_reqs = t.avail_reqs +ℤ pos read_res.reqs;
  stats = add_throughput_rx_sample e.measure_rx read_res t.stats;
}

unfoldable pub throughput_event : AppProto → Event → Thread → Outcome Thread
unfolding add_throughput_rx_sample receive
throughput_event proto ev t = do
  c ← connection t ev.idx
  elim ev.kind [
    | readable e ↦ (do got ← receive proto true e.recv c; ok (account_read e ev.idx got t))
    | error_queue m q ↦ stop assert_failed
    | hangup ↦ stop assert_failed
    | unknown ↦ stop assert_failed
  ]

unfoldable pub throughput_events : AppProto → List Event → Thread → Outcome Thread
unfolding throughput_event
throughput_events proto [] t = ok t
throughput_events proto (e ∷ events) t =
    throughput_event proto e t >>= throughput_events proto events

-- The part of a round before `REP_PROC`. `per_thread_conn` is the length of the array.
unfoldable pub throughput_load : AppProto → Round → Thread → Outcome Thread
unfolding throughput_send pick_conn
throughput_load proto r t = if ltb_ℤ (r.now -ℤ t.next_tx) (pos 0) then ok t else do
  picked ← pick_conn t.connections (length t.connections) r.rand
  elim picked [ none ↦ ok t | some idx ↦ throughput_send proto r idx t ]

unfoldable pub throughput_round : AppProto → Round → Thread → Outcome Thread
unfolding throughput_load throughput_events
throughput_round proto r t =
    if not r.load
    then ok (record t { next_tx = r.now })
    else do t' ← throughput_load proto r t; throughput_events proto r.events t'

unfoldable pub throughput_run : AppProto → List Round → Thread → Outcome Thread
unfolding throughput_round
throughput_run proto [] t = ok t
throughput_run proto (r ∷ rounds) t = throughput_round proto r t >>= throughput_run proto rounds
