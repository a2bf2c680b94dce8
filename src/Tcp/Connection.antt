-- ===== src/Tcp/Connection.antt =====
-- `struct tcp_connection`, the choice of a connection, and what the system calls answer.
use kata_load_test.Base.{
  ℕ, zero, suc, ◌+◌, ◌%◌, Bool, true, false, ◌&&◌, not, Option, none, some, List, ltb, ◌==◌,
  get_elem?, wrap16, Outcome, ok, bad_access, divide_by_zero, ◌>>=◌, ◌>>◌, or_stop, require,
}
use kata_load_test.Timestamping.Pending.{max_pending_reqs}

abbrev pub max_payload : ℕ
max_payload = 4000

-- `idx`, `pending_reqs` and `buffer_idx` are uint16_t; `buffer` has `max_payload` bytes.
pub record TcpConnection : Type 0 where
  pub fd : ℕ
  pub idx : ℕ
  pub closed : Bool
  pub pending_reqs : ℕ
  pub buffer_idx : ℕ
  pub buffer : ℕ → ℕ

-- The connection as `throughput_open_connections` leaves entry `i` of the calloc'ed array.
abbrev pub opened : ℕ → ℕ → TcpConnection
opened sock i = record {
  fd = sock;
  idx = wrap16 i;
  closed = false;
  pending_reqs = 0;
  buffer_idx = 0;
  buffer = λ _. 0;
}

-- writev or sendmsg: the number of bytes, -1 with EWOULDBLOCK, or -1 with another error.
pub data SendResult : Type 0 where
  sent : ℕ → SendResult
  send_would_block send_error : SendResult

-- recv: the bytes (none when the peer has closed), -1 with EWOULDBLOCK, or -1 with another error.
pub data RecvResult : Type 0 where
  bytes : List ℕ → RecvResult
  recv_would_block recv_error : RecvResult

abbrev pub is_available : TcpConnection → Bool
is_available c = ltb c.pending_reqs max_pending_reqs && not c.closed

module _ (connections : List TcpConnection) (per_thread_conn : ℕ) (rand : ℕ → ℕ) where
  -- The rounds left of the loop in `pick_conn`, from round `i` on. The connection is given by its
  -- index.
  unfoldable pub pick_loop : ℕ → ℕ → Outcome (Option ℕ)
  pick_loop zero i = ok none
  pick_loop (suc rounds) i = do
    require (not (per_thread_conn == 0)) divide_by_zero
    c ← or_stop (get_elem? connections (rand i % per_thread_conn)) bad_access
    elim (is_available c) [
      | true ↦ ok (some (rand i % per_thread_conn))
      | false ↦ pick_loop rounds (i + 1)
    ]

  -- Ten tries; `rand i` is what try `i` draws, and `per_thread_conn` is
  -- `get_conn_count() / get_thread_count()`.
  unfoldable pub pick_conn : Outcome (Option ℕ)
  unfolding pick_loop
  pick_conn = pick_loop 10 0
