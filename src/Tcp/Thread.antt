-- ===== src/Tcp/Thread.antt =====
-- The thread-local state of an agent thread over TCP, and what one round of a main loop is given by
-- its surroundings.
use kata_load_test.Base.{ℕ, Bool, List, Outcome, bad_access, or_stop, get_elem?}
use kata_load_test.Base.Int.{ℤ}
use kata_load_test.Timespec.{Timespec}
use kata_load_test.Stats.State.{LatencyStats, TxSamples}
use kata_load_test.Timestamping.Pending.{PendingTxTimestamps}
use kata_load_test.Timestamping.Extract.{ErrQueue}
use kata_load_test.AppProto.Request.{PerThread}
use kata_load_test.Tcp.Connection.{TcpConnection, SendResult, RecvResult}

-- `connections`, `per_conn_tx_timestamps`, `avail_reqs`; the loop's `next_tx`, a long; and the
-- thread's `thread_stats`, `tx_s`, `received_opid` and `per_thread_arg`.
pub record Thread : Type 0 where
  pub connections : List TcpConnection
  pub per_conn_tx_timestamps : List PendingTxTimestamps
  pub avail_reqs : ℤ
  pub next_tx : ℤ
  pub stats : LatencyStats
  pub tx_s : TxSamples
  pub received_opid : ℕ
  pub per_thread_arg : PerThread

-- What the handling of one event depends on: the answers of `recv` and of the clock,
-- `should_measure()`, `per_thread_samples` and the draw in `add_latency_sample`. Another thread may change the answer of
-- `should_measure()` at any time, so each call has an answer of its own.
pub record Readable : Type 0 where
  pub recv : RecvResult
  pub rx_timestamp : Timespec
  pub measure_latency : Bool
  pub skip_latency : Bool
  pub per_thread_samples : ℕ
  pub measure_rx : Bool

-- An event of `epoll_wait`, by the first test that it passes: EPOLLIN, EPOLLERR, EPOLLHUP, none.
pub data EventKind : Type 0 where
  readable : Readable → EventKind
  error_queue : Bool → ErrQueue → EventKind
  hangup unknown : EventKind

pub record Event : Type 0 where
  pub idx : ℕ
  pub kind : EventKind

-- What one round depends on. `now` is the clock where it is compared with `next_tx` (or where
-- `next_tx` is set to it, when the agent should not load).
pub record Round : Type 0 where
  pub load : Bool
  pub now : ℤ
  pub rand : ℕ → ℕ
  pub sample : ℕ
  pub tx_timestamp : Timespec
  pub send : SendResult
  pub measure_stamp : Bool
  pub measure_tx : Bool
  pub ia : ℤ
  pub events : List Event

-- `&connections[idx]` and `&per_conn_tx_timestamps[idx]`.
abbrev pub connection : Thread → ℕ → Outcome TcpConnection
connection t idx = or_stop (get_elem? t.connections idx) bad_access

abbrev pub ring : Thread → ℕ → Outcome PendingTxTimestamps
ring t idx = or_stop (get_elem? t.per_conn_tx_timestamps idx) bad_access
