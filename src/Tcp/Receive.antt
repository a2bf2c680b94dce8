-- ===== src/Tcp/Receive.antt =====
-- The part of the main loops that takes what `recv` gave for one connection, counts the responses in
-- the buffer and keeps the rest.
use kata_load_test.Base.{
  ℕ, ◌+◌, ◌-◌, Bool, true, Option, none, some, List, [], ◌∷◌, if◌then◌else◌, ltb, ◌==◌, length,
  get_or, copy, wrap16, sub16, Outcome, ok, stop, assert_failed, bad_access, left_main, ◌>>=◌, ◌>>◌,
  assert, require, leb,
}
use kata_load_test.Stats.State.{ByteReqPair}
use kata_load_test.AppProto.Response.{AppProto, consume_response}
use kata_load_test.Tcp.Connection.{
  TcpConnection, max_payload, RecvResult, bytes, recv_would_block, recv_error,
}

-- A list of bytes as the array that `copy` reads.
abbrev pub byte_at : List ℕ → ℕ → ℕ
byte_at bs i = get_or bs i 0

-- `recv` into the buffer behind what it holds, and `conn->buffer_idx += ret`. With EWOULDBLOCK `ret`
-- is -1, and the loops go on with it.
abbrev pub append_bytes : List ℕ → TcpConnection → TcpConnection
append_bytes bs c = record c {
  buffer = copy c.buffer c.buffer_idx (byte_at bs) (length bs);
  buffer_idx = wrap16 (c.buffer_idx + length bs);
}

abbrev pub step_back : TcpConnection → TcpConnection
step_back c = record c { buffer_idx = sub16 c.buffer_idx 1 }

-- `memcpy(conn->buffer, &conn->buffer[consumed], conn->buffer_idx - consumed)` and
-- `conn->buffer_idx -= consumed`.
abbrev pub shift_buffer : ℕ → TcpConnection → TcpConnection
shift_buffer consumed c = record c {
  buffer = copy c.buffer 0 (λ i. c.buffer (consumed + i)) (c.buffer_idx - consumed);
  buffer_idx = sub16 c.buffer_idx consumed;
}

-- The memcpy reads the buffer up to `buffer_idx`.
abbrev pub shift_within : ℕ → TcpConnection → Outcome TcpConnection
shift_within consumed c = do
  require (leb c.buffer_idx max_payload) bad_access
  ok (shift_buffer consumed c)

-- What the loops do with half a response behind the whole ones: the throughput agent keeps it, the
-- symmetric agents run into `assert(0)`.
abbrev pub keep_rest : Bool → ℕ → TcpConnection → Outcome TcpConnection
keep_rest keep_half consumed c =
    if consumed == c.buffer_idx
    then ok (record c { buffer_idx = 0 })
    else if ltb consumed c.buffer_idx
    then (if keep_half then shift_within consumed c else stop assert_failed)
    else stop assert_failed

-- From `process_response` on.
unfoldable pub count_responses :
    AppProto → Bool → TcpConnection → Outcome (ByteReqPair × TcpConnection)
count_responses proto keep_half c = do
  read_res ← consume_response proto c.buffer_idx
  c' ← keep_rest keep_half read_res.bytes c
  assert (ltb 0 read_res.reqs)
  ok (read_res, record c' { pending_reqs = sub16 c'.pending_reqs read_res.reqs })

-- The handling of a readable connection up to the bookkeeping; `none` if the peer has closed it.
unfoldable pub receive :
    AppProto → Bool → RecvResult → TcpConnection → Outcome (Option ByteReqPair × TcpConnection)
unfolding count_responses
receive proto keep_half recv_error c = stop left_main
receive proto keep_half (bytes []) c = ok (none, record c { closed = true })
receive proto keep_half (bytes (b ∷ bs)) c = do
  (read_res, c') ← count_responses proto keep_half (append_bytes (b ∷ bs) c)
  ok (some read_res, c')
receive proto keep_half recv_would_block c = do
  (read_res, c') ← count_responses proto keep_half (step_back c)
  ok (some read_res, c')
