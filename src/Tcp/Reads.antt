-- ===== src/Tcp/Reads.antt =====
-- What a read does to the connection's counters, whichever way it ends.
use kata_load_test.Base.{
  ℕ, ◌+◌, ◌/◌, ◌≤◌, ◌<◌, ◌≡◌, sym, ◌∙◌, Bool, true, false, Option, none, some, List, [], ◌∷◌, arith,
  length, Outcome, ok, >>=-eq-ok, stop, assert_failed,
}
use native.Mathlib.Decide.{dec_lt}
use kata_load_test.Stats.State.{ByteReqPair}
use kata_load_test.AppProto.Response.{
  AppProto, proto_echo, proto_synthetic, proto_ascii_memcached, proto_ascii_memcached_svc,
  unit_size, consume_response, consume_response-short,
}
use kata_load_test.Tcp.Connection.{
  TcpConnection, RecvResult, max_payload, bytes, recv_would_block, recv_error,
}
use kata_load_test.Tcp.Receive.{receive, count_responses, append_bytes, step_back, keep_rest}
use kata_load_test.Tcp.Stream.{Counted, receive-Counted}
use kata_load_test.Tcp.Balance.{IsBounded}
use kata_load_test.Tcp.Reassembly.{reqs_of}

count_responses-short :
    (proto : AppProto) (keep_half : Bool) (d : TcpConnection)
    → 0 < d.buffer_idx
    → d.buffer_idx ≤ max_payload
    → d.buffer_idx < unit_size proto
    → count_responses proto keep_half d ≡ stop assert_failed
unfolding count_responses
count_responses-short (proto_echo n) keep_half d some_bytes fits short =
    rw (consume_response-short (proto_echo n) d.buffer_idx short) (ground arith)
count_responses-short proto_synthetic keep_half d some_bytes fits short =
    rw (consume_response-short proto_synthetic d.buffer_idx short) (ground arith)
count_responses-short proto_ascii_memcached keep_half d some_bytes fits short =
    rw (consume_response-short proto_ascii_memcached d.buffer_idx short)
count_responses-short proto_ascii_memcached_svc keep_half d some_bytes fits short =
    rw (consume_response-short proto_ascii_memcached_svc d.buffer_idx short)

-- A read of at least one byte that fits into the buffer and leaves less than one response in it
-- stops the agent by a failed assertion, for every protocol and for both ways to treat half a
-- response.
pub receive-short :
    (proto : AppProto) (keep_half : Bool) (b : ℕ) (bs : List ℕ) (c : TcpConnection)
    → c.buffer_idx + length (b ∷ bs) ≤ max_payload
    → c.buffer_idx + length (b ∷ bs) < unit_size proto
    → receive proto keep_half (bytes (b ∷ bs)) c ≡ stop assert_failed
unfolding receive
receive-short proto keep_half b bs c fits short = rw (
    count_responses-short proto keep_half (append_bytes (b ∷ bs) c) (omega arith) (omega arith)
      (omega arith))

-- The peer answers no more requests than wait on the connection, the bytes fit behind those in the
-- buffer, and a socket that is reported readable has something to read.
abbrev pub IsHonest : AppProto → RecvResult → TcpConnection → Type 0
IsHonest proto (bytes bs) c =
    (c.buffer_idx + length bs ≤ max_payload)
    × ((c.buffer_idx + length bs) / unit_size proto ≤ c.pending_reqs)
IsHonest proto recv_would_block c = ⊥
IsHonest proto recv_error c = Unit {0}

-- At least one response, unless the peer has closed the connection.
abbrev pub IsPositive : Option ByteReqPair → Type 0
IsPositive none = Unit {0}
IsPositive (some r) = 0 < r.reqs

-- The responses counted are taken off the requests waiting, and the buffer is not overrun.
pub record IsRead (c c' : TcpConnection) (o : Option ByteReqPair) : Type 0 where
  pub pending : c'.pending_reqs + reqs_of o ≡ c.pending_reqs
  pub buffered : c'.buffer_idx ≤ max_payload
  pub idx : c'.idx ≡ c.idx
  pub positive : IsPositive o

Counted-IsRead :
    (size : ℕ) (bs : List ℕ) (c d : TcpConnection) (r : ByteReqPair)
    → Counted size bs c d r
    → (r.reqs ≤ c.pending_reqs) × (c.pending_reqs ≤ 16) × (d.buffer_idx ≤ max_payload)
    → (o : Option ByteReqPair) (c' : TcpConnection)
    → ◌≡◌ {A = Outcome (Option ByteReqPair × TcpConnection)} (ok (some r, d)) (ok (o, c'))
    → IsRead c c' o
Counted-IsRead size bs c d r k (few, bounded, fits) o c' e =
    ground (arith, k.pending, k.idx, k.positive)

pub receive-IsRead :
    (proto : AppProto) (recv : RecvResult) (c c' : TcpConnection) (o : Option ByteReqPair)
    → 0 < unit_size proto
    → IsBounded c
    → IsHonest proto recv c
    → receive proto true recv c ≡ ok (o, c')
    → IsRead c c' o
receive-IsRead proto (bytes []) c c' o pos bd h e = unfold receive in ground arith
receive-IsRead proto (bytes (b ∷ bs)) c c' o pos bd h e =
    elim (dec_lt (c.buffer_idx + length (b ∷ bs)) (unit_size proto)) [
      | yes short ↦ absurd (ground (arith, receive-short proto true b bs c h.0 short))
      | no enough ↦
          let (r, d, run, k) = receive-Counted proto b bs c pos (omega arith) h.0 in
          Counted-IsRead (unit_size proto) (b ∷ bs) c d r k
            (omega (arith, h.1, k.number, bd.pending, k.left)) o c' (sym run ∙ e)
    ]
receive-IsRead proto recv_would_block c c' o pos bd h e = absurd h
receive-IsRead proto recv_error c c' o pos bd h e = absurd (unfold receive in ground arith)

-- Where the symmetric agents' handler succeeds, the throughput agent's does the same.
keep_rest_either :
    (n : ℕ) (d d' : TcpConnection) → keep_rest false n d ≡ ok d' → keep_rest true n d ≡ ok d'
keep_rest_either n d d' h = ground arith

count_responses_either :
    (proto : AppProto) (d c' : TcpConnection) (r : ByteReqPair)
    → count_responses proto false d ≡ ok (r, c')
    → count_responses proto true d ≡ ok (r, c')
unfolding count_responses
count_responses_either proto d c' r h =
    let (read, run, rest) = >>=-eq-ok (consume_response proto d.buffer_idx) _ h in
    let (d', kept, last) = >>=-eq-ok (keep_rest false read.bytes d) _ rest in
    rw run (rw (keep_rest_either read.bytes d d' kept) last)

pub receive_either :
    (proto : AppProto) (recv : RecvResult) (c c' : TcpConnection) (o : Option ByteReqPair)
    → receive proto false recv c ≡ ok (o, c')
    → receive proto true recv c ≡ ok (o, c')
unfolding receive
receive_either proto (bytes []) c c' o h = h
receive_either proto (bytes (b ∷ bs)) c c' o h =
    let (x, run, rest) = >>=-eq-ok (count_responses proto false (append_bytes (b ∷ bs) c)) _ h in
    rw (count_responses_either proto (append_bytes (b ∷ bs) c) x.1 x.0 run) rest
receive_either proto recv_would_block c c' o h =
    let (x, run, rest) = >>=-eq-ok (count_responses proto false (step_back c)) _ h in
    rw (count_responses_either proto (step_back c) x.1 x.0 run) rest
receive_either proto recv_error c c' o h = h
