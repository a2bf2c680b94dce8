-- ===== src/AppProto/Response.antt =====
-- How the protocols count responses: `consume_response` on a buffer of `iov_len` bytes. None of them
-- reads the bytes.
use native.Mathlib.Nat.{div-add-mod}
use kata_load_test.Base.{
  ℕ, zero, suc, ◌+◌, ◌*◌, ◌/◌, ◌^◌, ◌≤◌, ◌<◌, ◌≡◌, arith, ltb, leb, ◌==◌, if◌then◌else◌, Outcome,
  ok, stop, divide_by_zero, assert_failed, ◌>>◌, assert, Bool-cases, inl, inr, wrap64,
}
use kata_load_test.Stats.State.{ByteReqPair}

-- `enum app_proto_type`, with what `arg` holds that the responses depend on: for the echo protocol
-- the length of its message.
pub data AppProto : Type 0 where
  proto_echo : ℕ → AppProto
  proto_synthetic proto_ascii_memcached proto_ascii_memcached_svc : AppProto

-- sizeof(long)
abbrev pub size_of_long : ℕ
size_of_long = 8

-- RESPONSE_SIZE
abbrev pub response_size : ℕ
response_size = 40

unfoldable pub echo_consume_response : ℕ → ℕ → Outcome ByteReqPair
echo_consume_response msg_len iov_len =
    if msg_len == 0
    then stop divide_by_zero
    else ok (record { reqs = iov_len / msg_len; bytes = wrap64 (iov_len / msg_len * msg_len) })

unfoldable pub synthetic_consume_response : ℕ → Outcome ByteReqPair
synthetic_consume_response iov_len = ok (record {
  reqs = iov_len / size_of_long;
  bytes = wrap64 (iov_len / size_of_long * size_of_long);
})

-- The loop of `ascii_mem_consume_response`, with fuel.
unfoldable pub ascii_mem_loop : ℕ → ℕ → ByteReqPair → ByteReqPair
ascii_mem_loop zero iov_len res = res
ascii_mem_loop (suc fuel) iov_len res =
    let res' : ByteReqPair = record {
      bytes = wrap64 (res.bytes + response_size);
      reqs = wrap64 (res.reqs + 1);
    } in
    let rest = ascii_mem_loop fuel iov_len res' in
    if ltb res.bytes iov_len
    then (if ltb iov_len (wrap64 (res'.bytes + response_size)) then res' else rest)
    else res

-- `iov_len` rounds are more than enough, since each one counts 40 bytes.
unfoldable pub ascii_mem_consume_response : ℕ → Outcome ByteReqPair
unfolding ascii_mem_loop
ascii_mem_consume_response iov_len = do
  assert (leb response_size iov_len)
  ok (ascii_mem_loop iov_len iov_len (record { bytes = 0; reqs = 0 }))

unfoldable pub consume_response : AppProto → ℕ → Outcome ByteReqPair
unfolding echo_consume_response synthetic_consume_response ascii_mem_consume_response
consume_response (proto_echo msg_len) iov_len = echo_consume_response msg_len iov_len
consume_response proto_synthetic iov_len = synthetic_consume_response iov_len
consume_response proto_ascii_memcached iov_len = ascii_mem_consume_response iov_len
consume_response proto_ascii_memcached_svc iov_len = ascii_mem_consume_response iov_len

-- The size of one response.
abbrev pub unit_size : AppProto → ℕ
unit_size (proto_echo msg_len) = msg_len
unit_size proto_synthetic = size_of_long
unit_size proto_ascii_memcached = response_size
unit_size proto_ascii_memcached_svc = response_size

-- As many whole responses as fit in `iov_len` bytes.
abbrev pub whole : ℕ → ℕ → ByteReqPair
whole size iov_len = record { bytes = iov_len / size * size; reqs = iov_len / size }

-- Those bytes fit, and what is left is less than one response.
pub whole_bounds :
    (size iov_len : ℕ)
    → 0 < size
    → ((whole size iov_len).bytes ≤ iov_len) × (iov_len < (whole size iov_len).bytes + size)
whole_bounds size iov_len pos =
    (omega (arith, div-add-mod iov_len size), omega (arith, div-add-mod iov_len size))

-- Started with `n` responses counted of which at least one more fits, the loop counts them all.
ascii_mem_loop-whole :
    (fuel n iov_len : ℕ)
    → iov_len < 2 ^ 63
    → n * response_size + response_size ≤ iov_len
    → iov_len < n * response_size + response_size * suc fuel
    → ascii_mem_loop fuel iov_len (record { bytes = n * response_size; reqs = n })
      ≡ whole response_size iov_len
unfolding ascii_mem_loop
ascii_mem_loop-whole zero n iov_len small fits enough = absurd (omega arith)
ascii_mem_loop-whole (suc fuel) n iov_len small fits enough =
    elim (Bool-cases (ltb iov_len (n * response_size + response_size + response_size))) [
      | inl last ↦ ground arith
      | inr more ↦ ground (arith, ascii_mem_loop-whole fuel (n + 1) iov_len)
    ]

ascii_mem-whole :
    (iov_len : ℕ)
    → iov_len < 2 ^ 63
    → response_size ≤ iov_len
    → ascii_mem_consume_response iov_len ≡ ok (whole response_size iov_len)
unfolding ascii_mem_consume_response
ascii_mem-whole iov_len small fits =
    ground (arith, ascii_mem_loop-whole iov_len 0 iov_len small (omega arith) (omega arith))

-- On a buffer of fewer than 2^63 bytes that holds at least one response of a nonempty kind, every
-- protocol counts as many whole responses as fit, and their bytes; the loop of the memcached
-- protocols agrees with the division.
pub consume_response-whole :
    (proto : AppProto) (iov_len : ℕ)
    → iov_len < 2 ^ 63
    → 0 < unit_size proto
    → unit_size proto ≤ iov_len
    → consume_response proto iov_len ≡ ok (whole (unit_size proto) iov_len)
unfolding consume_response
consume_response-whole (proto_echo msg_len) iov_len small pos fits =
    ground (arith, div-add-mod iov_len msg_len)
consume_response-whole proto_synthetic iov_len small pos fits = ground arith
consume_response-whole proto_ascii_memcached iov_len small pos fits =
    ascii_mem-whole iov_len small fits
consume_response-whole proto_ascii_memcached_svc iov_len small pos fits =
    ascii_mem-whole iov_len small fits

abbrev pub on_short : AppProto → Outcome ByteReqPair
on_short (proto_echo msg_len) = ok (record { bytes = 0; reqs = 0 })
on_short proto_synthetic = ok (record { bytes = 0; reqs = 0 })
on_short proto_ascii_memcached = stop assert_failed
on_short proto_ascii_memcached_svc = stop assert_failed

-- On a buffer that holds less than one response, the echo and synthetic protocols count none, and
-- the memcached protocols fail an assertion.
pub consume_response-short :
    (proto : AppProto) (iov_len : ℕ)
    → iov_len < unit_size proto
    → consume_response proto iov_len ≡ on_short proto
unfolding consume_response echo_consume_response synthetic_consume_response
    ascii_mem_consume_response
consume_response-short (proto_echo msg_len) iov_len short =
    let none_fits : iov_len / msg_len ≡ 0 = grind (arith, div-add-mod iov_len msg_len) in
    ground (arith, none_fits)
consume_response-short proto_synthetic iov_len short =
    let none_fits : iov_len / 8 ≡ 0 = omega arith in ground (arith, none_fits)
consume_response-short proto_ascii_memcached iov_len short = ground arith
consume_response-short proto_ascii_memcached_svc iov_len short = ground arith
