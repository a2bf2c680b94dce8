-- ===== src/Tcp/Latency/Answer.antt =====
-- A round of the latency agent that gets its answer.
use native.Mathlib.Nat.{div-add-mod}
use kata_load_test.Base.{
  ap, ◌+◌, ◌-◌, ◌*◌, ◌/◌, ◌≢◌, wrap32, wrap64, ℕ, ◌^◌, ◌≤◌, ◌<◌, ◌≡◌, refl, arith, ◌%◌, set, true,
  false, none, some, List, ◌∷◌, length, get_elem?, ◌==◌, ok,
}
use kata_load_test.Base.Int.{ℤ, pos, to_u64, ◌+ℤ◌, ◌-ℤ◌, ltb_ℤ}
use kata_load_test.Stats.State.{LatencyStats}
use kata_load_test.Stats.Samples.{
  add_latency_sample, add_throughput_rx_sample, add_throughput_tx_sample, store_sample,
}
use kata_load_test.AppProto.Response.{AppProto, unit_size, whole, consume_response-whole}
use kata_load_test.AppProto.Request.{create_request, request_bytes}
use kata_load_test.Tcp.Connection.{TcpConnection, sent, bytes, pick_conn}
use kata_load_test.Tcp.Balance.{IsPicked, pick_conn-IsPicked}
use kata_load_test.Tcp.Thread.{Thread}
use kata_load_test.Tcp.Latency.{LatencyRound, filled, latency_send, latency_recv, latency_round}

add_latency_sample-stores :
    (per : ℕ) (diff : ℤ) (s : LatencyStats)
    → 0 < per
    → add_latency_sample true false per diff none s ≡ ok (store_sample per diff none s)
unfolding add_latency_sample
add_latency_sample-stores per diff s h = let enough : (per == 0) ≡ false = ground arith in rw enough

elapsed : (a b : ℕ) → a ≤ b → b < 2 ^ 64 → to_u64 (pos b -ℤ pos a) ≡ b - a
unfolding ◌-ℤ◌
elapsed a b le lt = ground arith

-- What an answer of `len` bytes in responses of `unit` bytes, to a request of `n` bytes, leaves in
-- the statistics, with `lat` from the clock before the request to the clock after the answer.
pub record IsRecorded (per unit len n lat : ℕ) (s s' : LatencyStats) : Type 0 where
  pub latency : (s'.samples (s.count % per)).nsec ≡ lat
  pub others : (i : ℕ) → i ≢ s.count % per → s'.samples i ≡ s.samples i
  pub count : s'.count ≡ wrap32 (s.count + 1)
  pub tx_reqs : s'.th_s.tx.reqs ≡ wrap64 (s.th_s.tx.reqs + 1)
  pub tx_bytes : s'.th_s.tx.bytes ≡ wrap64 (s.th_s.tx.bytes + n)
  pub rx_reqs : s'.th_s.rx.reqs ≡ wrap64 (s.th_s.rx.reqs + len / unit)
  pub rx_bytes : s'.th_s.rx.bytes ≡ wrap64 (s.th_s.rx.bytes + len)

-- The statistics after a round that is measured.
abbrev recorded : ℕ → ℤ → ℕ → ℕ → ℕ → LatencyStats → LatencyStats
recorded per diff unit len n s = store_sample per diff none (
    add_throughput_rx_sample true (whole unit len)
      (add_throughput_tx_sample true (record { bytes = n; reqs = 1 }) s))

recorded-IsRecorded :
    (per a b unit len n : ℕ) (s : LatencyStats)
    → a ≤ b
    → b < 2 ^ 64
    → len % unit ≡ 0
    → IsRecorded per unit len n (b - a) s (recorded per (pos b -ℤ pos a) unit len n s)
unfolding add_throughput_rx_sample add_throughput_tx_sample
recorded-IsRecorded per a b unit len n s le lt whole_only =
    let all_read : len / unit * unit ≡ len = omega (arith, div-add-mod len unit) in
    record {
      latency = ground (arith, elapsed a b le lt);
      others = λ i ne. ground arith;
      count = refl;
      tx_reqs = refl;
      tx_bytes = refl;
      rx_reqs = refl;
      rx_bytes = ap (λ k. wrap64 (s.th_s.rx.bytes + k)) all_read;
    }

whole_bytes : (unit len : ℕ) → len % unit ≡ 0 → ((whole unit len).bytes == len) ≡ true
whole_bytes unit len h = ground (arith, div-add-mod len unit)

same_number : (n : ℕ) → (n == n) ≡ true
same_number n = ground arith

-- A round in which everything is measured, with the clock `a` before the request and `b` after the
-- answer.
pub record IsTimed (r : LatencyRound) (a b : ℕ) : Type 0 where
  pub start : r.start_time ≡ pos a
  pub end : r.end_time ≡ pos b
  pub ordered : a ≤ b
  pub small : b < 2 ^ 64
  pub tx : r.measure_tx ≡ true
  pub rx : r.measure_rx ≡ true
  pub latency : r.measure_latency ≡ true
  pub sampled : r.skip_latency ≡ false
  pub per_thread : 0 < r.per_thread_samples

module _ (proto : AppProto) (r : LatencyRound) where
  -- The bytes of the request that the thread makes.
  abbrev pub next_bytes : Thread → ℕ
  next_bytes t = request_bytes (create_request proto r.sample t.per_thread_arg).0

  latency_send-answers :
      (idx a b' : ℕ) (t : Thread) (c : TcpConnection) (b : ℕ) (bs : List ℕ)
      → IsTimed r a b'
      → get_elem? t.connections idx ≡ some c
      → r.send ≡ sent (next_bytes t)
      → r.recv ≡ bytes (b ∷ bs)
      → 0 < unit_size proto
      → length (b ∷ bs) % unit_size proto ≡ 0
      → unit_size proto ≤ length (b ∷ bs)
      → length (b ∷ bs) < 2 ^ 63
      → latency_send proto r idx t
        ≡ ok (record t {
          per_thread_arg = (create_request proto r.sample t.per_thread_arg).1;
          connections = set t.connections idx (filled (b ∷ bs) c);
          stats =
              recorded r.per_thread_samples
                (pos b' -ℤ pos a)
                (unit_size proto)
                (length (b ∷ bs))
                (next_bytes t)
                t.stats;
          next_tx = t.next_tx +ℤ r.ia;
        })
  unfolding latency_send latency_recv
  latency_send-answers idx a b' t c b bs m found wrote got pos_unit whole_only fits small = rw (
    found,
    wrote,
    same_number (next_bytes t),
    got,
    consume_response-whole proto (length (b ∷ bs)) small pos_unit fits,
    whole_bytes (unit_size proto) (length (b ∷ bs)) whole_only,
    m.tx,
    m.rx,
    m.latency,
    m.sampled,
    m.start,
    m.end,
    add_latency_sample-stores r.per_thread_samples (pos b' -ℤ pos a)
        (add_throughput_rx_sample true (whole (unit_size proto) (length (b ∷ bs)))
          (add_throughput_tx_sample true (record { bytes = next_bytes t; reqs = 1 }) t.stats))
        m.per_thread,
  )

  latency_round-latency_send :
      (idx : ℕ) (t t' : Thread)
      → r.load ≡ true
      → ltb_ℤ r.now t.next_tx ≡ false
      → pick_conn t.connections (length t.connections) r.rand ≡ ok (some idx)
      → latency_send proto r idx t ≡ ok t'
      → latency_round proto r t ≡ ok t'
  unfolding latency_round
  latency_round-latency_send idx t t' load due pick run = rw (load, due, pick) run

  -- When the agent should load, the next request is due, a connection is picked, the write takes the
  -- whole request, the answer is a positive number of whole nonempty responses below 2 ^ 63 bytes, everything
  -- is measured and sampled, the number of samples is set, and the clock does not go back and stays
  -- below 2 ^ 64: the round goes through, on a connection of the thread's that is open. It writes
  -- one latency sample, the time from before the request to after the answer, into the ring's next
  -- slot and no other; it counts one request and its bytes as sent, and as received the answer's
  -- bytes and as many responses as they are whole responses, each count modulo its width; and the
  -- next request is due after the interarrival time.
  pub latency_round-answers :
      (idx a b' : ℕ) (t : Thread) (b : ℕ) (bs : List ℕ)
      → IsTimed r a b'
      → r.load ≡ true
      → ltb_ℤ r.now t.next_tx ≡ false
      → pick_conn t.connections (length t.connections) r.rand ≡ ok (some idx)
      → r.send ≡ sent (next_bytes t)
      → r.recv ≡ bytes (b ∷ bs)
      → 0 < unit_size proto
      → length (b ∷ bs) % unit_size proto ≡ 0
      → unit_size proto ≤ length (b ∷ bs)
      → length (b ∷ bs) < 2 ^ 63
      → (t' : Thread) × (latency_round proto r t ≡ ok t')
        × IsPicked t.connections idx
        × IsRecorded r.per_thread_samples
            (unit_size proto)
            (length (b ∷ bs))
            (next_bytes t)
            (b' - a)
            t.stats
            t'.stats
        × (t'.next_tx ≡ t.next_tx +ℤ r.ia)
  latency_round-answers idx a b' t b bs m load due pick wrote got pos_unit whole_only fits small =
      let picked = pick_conn-IsPicked t.connections (length t.connections) r.rand idx pick in
      (
        _,
        latency_round-latency_send idx t _ load due pick (
            latency_send-answers idx a b' t picked.conn b bs m picked.found wrote got pos_unit
              whole_only fits small),
        picked,
        recorded-IsRecorded r.per_thread_samples a b' (unit_size proto) (length (b ∷ bs))
            (next_bytes t) t.stats m.ordered m.small whole_only,
        refl,
      )
