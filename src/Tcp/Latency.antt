-- ===== src/Tcp/Latency.antt =====
-- `latency_tcp_main` of lancet/agents/tp_tcp.c: one round of its loop, and a run of rounds. The
-- agent sends a request, waits for the response, and takes a latency sample.
pub mod Counts
pub mod Run
pub mod Answer
use kata_load_test.Base.{
  ℕ, Bool, true, false, not, Option, none, some, List, [], ◌∷◌, if◌then◌else◌, set, length, copy,
  ◌==◌, Outcome, ok, stop, left_main, ◌>>=◌, ◌>>◌, assert,
}
use kata_load_test.Base.Int.{ℤ, ◌+ℤ◌, ◌-ℤ◌, ltb_ℤ}
use kata_load_test.Stats.Samples.{
  add_throughput_tx_sample, add_throughput_rx_sample, add_latency_sample,
}
use kata_load_test.AppProto.Response.{AppProto, consume_response}
use kata_load_test.AppProto.Request.{create_request, request_bytes}
use kata_load_test.Tcp.Connection.{
  TcpConnection, SendResult, sent, send_would_block, send_error, RecvResult, bytes,
  recv_would_block, recv_error, pick_conn,
}
use kata_load_test.Tcp.Receive.{byte_at}
use kata_load_test.Tcp.Thread.{Thread, connection}

-- What a round depends on, in the order in which the code asks. `now` is the clock where it is
-- compared with `next_tx`, or where `next_tx` is set to it.
pub record LatencyRound : Type 0 where
  pub load : Bool
  pub now : ℤ
  pub rand : ℕ → ℕ
  pub start_time : ℤ
  pub sample : ℕ
  pub send : SendResult
  pub measure_tx : Bool
  pub recv : RecvResult
  pub end_time : ℤ
  pub measure_rx : Bool
  pub measure_latency : Bool
  pub skip_latency : Bool
  pub per_thread_samples : ℕ
  pub ia : ℤ

-- The sockets block: any result of -1 ends the loop.
abbrev pub check_written : SendResult → ℕ → Outcome (Unit {0})
check_written send_error bytes_to_send = stop left_main
check_written send_would_block bytes_to_send = stop left_main
check_written (sent n) bytes_to_send = assert (n == bytes_to_send)

-- The bytes that `recv` wrote to the front of the buffer.
abbrev pub filled : List ℕ → TcpConnection → TcpConnection
filled bs c = record c { buffer = copy c.buffer 0 (byte_at bs) (length bs) }

-- From `recv` to the end of the round.
unfoldable pub latency_recv :
    AppProto → LatencyRound → ℕ → TcpConnection → RecvResult → Thread → Outcome Thread
unfolding consume_response add_throughput_rx_sample add_latency_sample
latency_recv proto r idx c recv_error t = stop left_main
latency_recv proto r idx c recv_would_block t = stop left_main
latency_recv proto r idx c (bytes []) t =
    ok (record t { connections = set t.connections idx (record c { closed = true }) })
latency_recv proto r idx c (bytes (b ∷ bs)) t = do
  read_res ← consume_response proto (length (b ∷ bs))
  assert (read_res.bytes == length (b ∷ bs))
  s ←
      add_latency_sample r.measure_latency r.skip_latency r.per_thread_samples
        (r.end_time -ℤ r.start_time) none (add_throughput_rx_sample r.measure_rx read_res t.stats)
  ok (record t {
    connections = set t.connections idx (filled (b ∷ bs) c);
    stats = s;
    next_tx = t.next_tx +ℤ r.ia;
  })

-- From the picked connection on.
unfoldable pub latency_send : AppProto → LatencyRound → ℕ → Thread → Outcome Thread
unfolding create_request add_throughput_tx_sample latency_recv
latency_send proto r idx t = do
  c ← connection t idx
  let (to_send, arg) = create_request proto r.sample t.per_thread_arg
  check_written r.send (request_bytes to_send)
  latency_recv proto r idx c r.recv (record t {
    per_thread_arg = arg;
    stats =
        add_throughput_tx_sample r.measure_tx (record { bytes = request_bytes to_send; reqs = 1 })
          t.stats;
  })

unfoldable pub latency_round : AppProto → LatencyRound → Thread → Outcome Thread
unfolding latency_send pick_conn
latency_round proto r t =
    if not r.load
    then ok (record t { next_tx = r.now })
    else if ltb_ℤ r.now t.next_tx
    then ok t
    else do
      picked ← pick_conn t.connections (length t.connections) r.rand
      elim picked [ none ↦ ok t | some idx ↦ latency_send proto r idx t ]

unfoldable pub latency_run : AppProto → List LatencyRound → Thread → Outcome Thread
unfolding latency_round
latency_run proto [] t = ok t
latency_run proto (r ∷ rounds) t = latency_round proto r t >>= latency_run proto rounds
