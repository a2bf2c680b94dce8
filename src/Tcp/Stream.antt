-- ===== src/Tcp/Stream.antt =====
-- The throughput agent's reading of a byte stream: responses are counted across reads.
use kata_load_test.Base.{
  ℕ, suc, ◌+◌, ◌-◌, ◌*◌, ◌/◌, ◌≤◌, ◌<◌, ◌≡◌, refl, ap, sym, ◌∙◌, Bool, true, some, List, [], ◌∷◌,
  ◌++◌, arith, length, drop, slice, slice-append, slice-copy_low, slice-copy_high, slice_shift, ok,
  sub16, length-slice, drop-slice,
}
use native.Mathlib.Nat.{div-add-mod}
use native.Mathlib.Decide.{ℕ_discrete}
use kata_load_test.Stats.State.{ByteReqPair}
use kata_load_test.AppProto.Response.{
  AppProto, unit_size, whole, whole_bounds, consume_response, consume_response-whole,
}
use kata_load_test.Tcp.Connection.{TcpConnection, max_payload, bytes}
use kata_load_test.Tcp.Receive.{
  receive, count_responses, append_bytes, shift_buffer, byte_at, keep_rest,
}

-- The bytes received and not yet counted.
pub contents : TcpConnection → List ℕ
contents c = slice c.buffer 0 c.buffer_idx

slice-byte_at : (bs : List ℕ) → slice (byte_at bs) 0 (length bs) ≡ bs
slice-byte_at [] = refl
slice-byte_at (b ∷ bs) =
    ap (◌∷◌ b) (slice_shift _ (byte_at bs) 1 0 (length bs) next ∙ slice-byte_at bs)
  where
    next : (k : ℕ) → k < length bs → byte_at (b ∷ bs) (1 + k) ≡ byte_at bs (0 + k)
    next k lt = let e : 1 + k ≡ suc (0 + k) = omega arith in rw e

contents-append :
    (bs : List ℕ) (c : TcpConnection)
    → c.buffer_idx + length bs ≤ max_payload
    → contents (append_bytes bs c) ≡ contents c ++ bs
unfolding contents
contents-append bs c fits = ground (
  arith,
  slice-append (append_bytes bs c).buffer 0 c.buffer_idx (length bs),
  slice-copy_low c.buffer (byte_at bs) c.buffer_idx (length bs),
  slice-copy_high c.buffer (byte_at bs) c.buffer_idx (length bs),
  slice-byte_at bs,
)

contents-shift :
    (n : ℕ) (c : TcpConnection)
    → n ≤ c.buffer_idx
    → c.buffer_idx ≤ max_payload
    → contents (shift_buffer n c) ≡ drop n (contents c)
unfolding contents
contents-shift n c le fits =
    let e : sub16 c.buffer_idx n ≡ c.buffer_idx - n = omega arith in
    rw (e, drop-slice c.buffer 0 n c.buffer_idx)
      (slice_shift _ c.buffer 0 (0 + n) (c.buffer_idx - n) (λ k lt. ground arith))

-- The bytes that the memcpy moves do not overlap the place that it moves them to.
pub memcpy_disjoint :
    (size n : ℕ) → 0 < size → size ≤ n → n - (whole size n).bytes ≤ (whole size n).bytes
memcpy_disjoint size n pos le =
    let (fits, rest) = whole_bounds size n pos in grind (arith, div-add-mod n size)

-- Dropping the counted bytes from the buffer.
record Kept (consumed : ℕ) (c c' : TcpConnection) : Type 0 where
  kept : contents c' ≡ drop consumed (contents c)
  left : c'.buffer_idx ≡ c.buffer_idx - consumed
  pending : c'.pending_reqs ≡ c.pending_reqs
  closed : c'.closed ≡ c.closed
  idx : c'.idx ≡ c.idx

drop-contents_all : (c : TcpConnection) → drop c.buffer_idx (contents c) ≡ []
unfolding contents
drop-contents_all c =
    let e : c.buffer_idx - c.buffer_idx ≡ 0 = omega arith in
    rw (drop-slice c.buffer 0 c.buffer_idx c.buffer_idx, e)

keep_rest-Kept :
    (consumed : ℕ) (c : TcpConnection)
    → consumed ≤ c.buffer_idx
    → c.buffer_idx ≤ max_payload
    → (c' : TcpConnection) × (keep_rest true consumed c ≡ ok c') × Kept consumed c c'
keep_rest-Kept consumed c le fits = elim (ℕ_discrete consumed c.buffer_idx) [
  | yes all ↦ (
    record c { buffer_idx = 0 },
    ground arith,
    record {
      kept = unfold contents in rw all (sym (drop-contents_all c));
      left = omega arith;
      pending = refl;
      closed = refl;
      idx = refl;
    },
  )
  | no some_left ↦ (
    shift_buffer consumed c,
    ground arith,
    record {
      kept = contents-shift consumed c le fits;
      left = omega arith;
      pending = refl;
      closed = refl;
      idx = refl;
    },
  )
]

-- What a read makes of a connection: the whole responses among what the buffer held and the bytes
-- `bs` are counted and taken off the requests waiting, and the bytes behind them stay.
pub record Counted (size : ℕ) (bs : List ℕ) (c c' : TcpConnection) (r : ByteReqPair) : Type 0 where
  pub number : r.reqs ≡ (c.buffer_idx + length bs) / size
  pub volume : r.bytes ≡ r.reqs * size
  pub rest : contents c' ≡ drop (r.reqs * size) (contents c ++ bs)
  pub left : c'.buffer_idx + r.reqs * size ≡ c.buffer_idx + length bs
  pub part : c'.buffer_idx < size
  pub pending : c'.pending_reqs ≡ sub16 c.pending_reqs r.reqs
  pub closed : c'.closed ≡ c.closed
  pub idx : c'.idx ≡ c.idx
  pub positive : 0 < r.reqs

-- The steps of the handler, put together.
count_responses-kept :
    (proto : AppProto) (keep_half : Bool) (d d' : TcpConnection) (r : ByteReqPair)
    → consume_response proto d.buffer_idx ≡ ok r
    → keep_rest keep_half r.bytes d ≡ ok d'
    → 0 < r.reqs
    → count_responses proto keep_half d
      ≡ ok (r, record d' { pending_reqs = sub16 d'.pending_reqs r.reqs })
unfolding count_responses
count_responses-kept proto keep_half d d' r read kept pos = rw read (rw kept (ground arith))

module _ (proto : AppProto) (b : ℕ) (bs : List ℕ) (c : TcpConnection) (pos : 0 < unit_size proto)
    (enough : unit_size proto ≤ c.buffer_idx + length (b ∷ bs))
    (fits : c.buffer_idx + length (b ∷ bs) ≤ max_payload) where
  filled : ℕ
  filled = c.buffer_idx + length (b ∷ bs)

  filled_idx : (append_bytes (b ∷ bs) c).buffer_idx ≡ filled
  unfolding filled
  filled_idx = omega arith

  receive-Kept :
      (d' : TcpConnection)
      → keep_rest true (whole (unit_size proto) filled).bytes (append_bytes (b ∷ bs) c) ≡ ok d'
      → Kept (whole (unit_size proto) filled).bytes (append_bytes (b ∷ bs) c) d'
      → (r : ByteReqPair) × (c' : TcpConnection) × (receive proto true (bytes (b ∷ bs)) c
          ≡ ok (some r, c'))
        × Counted (unit_size proto) (b ∷ bs) c c' r
  unfolding receive
  receive-Kept d' e k = (
    r,
    record d' { pending_reqs = sub16 d'.pending_reqs r.reqs },
    rw (count_responses-kept proto true (append_bytes (b ∷ bs) c) d' r read e some_whole),
    record {
      number = unfold filled in refl;
      volume = refl;
      rest = unfold contents in k.kept ∙ ap (drop r.bytes) (contents-append (b ∷ bs) c fits);
      left = unfold filled in omega (arith, bounds);
      part = unfold filled in omega (arith, bounds, filled_idx);
      pending = ap (λ p. sub16 p r.reqs) k.pending;
      closed = k.closed;
      idx = k.idx;
      positive = some_whole;
    },
  )
    where
      r : ByteReqPair
      r = whole (unit_size proto) filled

      bounds : (r.bytes ≤ filled) × (filled < r.bytes + unit_size proto)
      bounds = whole_bounds (unit_size proto) filled pos

      some_whole : 0 < r.reqs
      some_whole = unfold filled in grind (arith, div-add-mod filled (unit_size proto))

      read : consume_response proto (append_bytes (b ∷ bs) c).buffer_idx ≡ ok r
      read =
          rw filled_idx
            (unfold filled in consume_response-whole proto filled (omega arith) pos enough)

  -- For responses that are not empty, a read of at least one byte that fits into the buffer and
  -- completes at least one response: the
  -- handler of the throughput agent succeeds, counts every whole response, takes them off the
  -- requests waiting and keeps exactly the bytes behind them.
  pub receive-Counted :
      (r : ByteReqPair) × (c' : TcpConnection) × (receive proto true (bytes (b ∷ bs)) c
        ≡ ok (some r, c'))
      × Counted (unit_size proto) (b ∷ bs) c c' r
  receive-Counted =
      let (d', e, k) =
        keep_rest-Kept (whole (unit_size proto) filled).bytes (append_bytes (b ∷ bs) c)
          (unfold filled in omega (arith, whole_bounds (unit_size proto) filled pos, filled_idx))
          (omega arith) in
      receive-Kept d' e k

pub length-contents : (c : TcpConnection) → length (contents c) ≡ c.buffer_idx
unfolding contents
length-contents c = length-slice c.buffer 0 c.buffer_idx
