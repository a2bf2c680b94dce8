-- ===== src/Tcp/Latency/Run.antt =====
-- The latency agent's account: every request is answered or finds its connection closed.
use kata_load_test.Base.{
  ℕ, suc, ◌+◌, ◌^◌, ◌<◌, ◌≡◌, refl, sym, subst, ◌∙◌, arith, true, false, not, Option, none, some,
  List, [], ◌∷◌, length, get_elem?, set, All, ok, >>=-eq-ok, ok-injective, or_stop-eq-ok,
  bad_access, assert, ◌==◌, Bool-cases, inl, inr, ◌>>=◌,
}
use mathlib.Core.Option
use kata_load_test.Base.Int.{◌+ℤ◌, ◌-ℤ◌, ltb_ℤ}
use kata_load_test.Stats.State.{ByteReqPair, LatencyStats}
use kata_load_test.Stats.Samples.{
  add_throughput_tx_sample, add_throughput_rx_sample, add_latency_sample,
}
use kata_load_test.AppProto.Response.{AppProto, consume_response}
use kata_load_test.AppProto.Request.{create_request, request_bytes}
use kata_load_test.Tcp.Connection.{
  TcpConnection, RecvResult, bytes, recv_would_block, recv_error, pick_conn,
}
use kata_load_test.Tcp.Balance.{IsPicked, picked_one, pick_conn-IsPicked}
use kata_load_test.Tcp.Thread.{Thread, connection}
use kata_load_test.Tcp.Latency.{
  LatencyRound, check_written, filled, latency_recv, latency_send, latency_round, latency_run,
}
use kata_load_test.Tcp.Latency.Counts.{
  closed_one, closed_count-set, IsMeasured, IsLedger, rx_sample-keeps, latency_sample-counts,
  tx_sample-counts, round_sends, run_sends,
}

module _ (proto : AppProto) (r : LatencyRound) (measured : IsMeasured r) where
  -- The account after the answer, and no request more.
  abbrev IsSettled : Thread → Thread → Type 0
  IsSettled t t' = IsLedger 0 t' × (t'.stats.th_s.tx.reqs ≡ t.stats.th_s.tx.reqs)

  answered_counts :
      (p : ByteReqPair) (t : Thread) (s : LatencyStats)
      → IsLedger 1 t
      → add_latency_sample r.measure_latency r.skip_latency r.per_thread_samples
          (r.end_time -ℤ r.start_time)
          none
          (add_throughput_rx_sample r.measure_rx p t.stats)
        ≡ ok s
      → (s.count ≡ suc t.stats.count) × (s.th_s.tx.reqs ≡ t.stats.th_s.tx.reqs)
  answered_counts p t s h e =
      let (same_count, same_tx) = rx_sample-keeps r.measure_rx p t.stats in
      let b = h.balance in
      let few = h.few in
      let (more, same) =
        latency_sample-counts r.measure_latency r.skip_latency r.per_thread_samples
          (r.end_time -ℤ r.start_time) (add_throughput_rx_sample r.measure_rx p t.stats) s
          measured.1 measured.2 (omega arith) e in
      (omega arith, omega arith)

  answered-IsSettled :
      (idx : ℕ) (c : TcpConnection) (bs : List ℕ) (t : Thread) (s : LatencyStats)
      → get_elem? t.connections idx ≡ some c
      → IsLedger 1 t
      → (s.count ≡ suc t.stats.count) × (s.th_s.tx.reqs ≡ t.stats.th_s.tx.reqs)
      → IsSettled t (record t {
        connections = set t.connections idx (filled bs c);
        stats = s;
        next_tx = t.next_tx +ℤ r.ia;
      })
  answered-IsSettled idx c bs t s found h (more, same) =
      let b = h.balance in
      let few = h.few in
      (
        record {
          balance = omega (arith, closed_count-set t.connections idx c (filled bs c) found);
          few = omega arith;
        },
        same,
      )

  latency_recv-IsSettled :
      (idx : ℕ) (c : TcpConnection) (recv : RecvResult) (t t' : Thread)
      → get_elem? t.connections idx ≡ some c
      → c.closed ≡ false
      → IsLedger 1 t
      → latency_recv proto r idx c recv t ≡ ok t'
      → IsSettled t t'
  unfolding latency_recv
  latency_recv-IsSettled idx c recv_error t t' found is_open h e = absurd (ground arith)
  latency_recv-IsSettled idx c recv_would_block t t' found is_open h e = absurd (ground arith)
  latency_recv-IsSettled idx c (bytes []) t t' found is_open h e =
      let open_one : closed_one c ≡ 0 = rw is_open in
      let b = h.balance in
      let few = h.few in
      subst (IsSettled t) (ok-injective _ t' e) (
        record {
          balance = omega (
            arith,
            open_one,
            closed_count-set t.connections idx c (record c { closed = true }) found,
          );
          few = few;
        },
        refl,
      )
  latency_recv-IsSettled idx c (bytes (b ∷ bs)) t t' found is_open h e =
      let (read_res, _, e1) = >>=-eq-ok (consume_response proto (length (b ∷ bs))) _ e in
      let (_, _, e2) = >>=-eq-ok (assert (read_res.bytes == length (b ∷ bs))) _ e1 in
      let s1 : LatencyStats = add_throughput_rx_sample r.measure_rx read_res t.stats in
      let (s, sampled, e3) =
        >>=-eq-ok
          (add_latency_sample r.measure_latency r.skip_latency r.per_thread_samples
            (r.end_time -ℤ r.start_time) none s1)
          _ e2 in
      subst (IsSettled t) (ok-injective _ t' e3)
        (answered-IsSettled idx c (b ∷ bs) t s found h (answered_counts read_res t s h sampled))

  latency_send-IsLedger :
      (idx : ℕ) (t t' : Thread)
      → IsPicked t.connections idx
      → IsLedger 0 t
      → suc t.stats.th_s.tx.reqs < 2 ^ 32
      → latency_send proto r idx t ≡ ok t'
      → IsLedger 0 t' × (t'.stats.th_s.tx.reqs ≡ suc t.stats.th_s.tx.reqs)
  unfolding latency_send
  latency_send-IsLedger idx t t' picked h room e =
      let (c, at, e1) = >>=-eq-ok (connection t idx) _ e in
      let found = or_stop-eq-ok (get_elem? t.connections idx) bad_access c at in
      let is_open : c.closed ≡ false =
        subst (λ x. x.closed ≡ false)
          (Option.some-injective picked.conn c (sym picked.found ∙ found)) picked.is_open in
      let req = create_request proto r.sample t.per_thread_arg in
      let (_, _, e2) = >>=-eq-ok (check_written r.send (request_bytes req.0)) _ e1 in
      let t1 : Thread = record t {
        per_thread_arg = req.1;
        stats =
            add_throughput_tx_sample r.measure_tx (record { bytes = request_bytes req.0; reqs = 1 })
              t.stats;
      } in
      let (same, more) =
        tx_sample-counts r.measure_tx (request_bytes req.0) t.stats measured.0 room in
      let b = h.balance in
      let waiting : IsLedger 1 t1 = record { balance = omega arith; few = omega arith } in
      let (settled, no_more) = latency_recv-IsSettled idx c r.recv t1 t' found is_open waiting e2 in
      (settled, no_more ∙ more)

  -- Also how many requests it adds.
  latency_round-IsLedger :
      (t t' : Thread)
      → IsLedger 0 t
      → t.stats.th_s.tx.reqs + round_sends r t < 2 ^ 32
      → latency_round proto r t ≡ ok t'
      → IsLedger 0 t' × (t'.stats.th_s.tx.reqs ≡ t.stats.th_s.tx.reqs + round_sends r t)
  unfolding latency_round
  latency_round-IsLedger t t' h room e = elim (Bool-cases (not r.load)) [
    | inl no_load ↦
        let e' : ok (record t { next_tx = r.now }) ≡ ok t' = rw no_load at e in
        let none_sent : round_sends r t ≡ 0 = rw no_load in
        subst Next (ok-injective (record t { next_tx = r.now }) t' e')
          (record { balance = h.balance; few = h.few }, omega (arith, none_sent))
    | inr load ↦ elim (Bool-cases (ltb_ℤ r.now t.next_tx)) [
      | inl early ↦
          let e' : ok t ≡ ok t' = rw (load, early) at e in
          let none_sent : round_sends r t ≡ 0 = rw (load, early) in
          subst Next (ok-injective t t' e') (h, omega (arith, none_sent))
      | inr due ↦
          let e' : (pick_conn t.connections (length t.connections) r.rand >>= λ picked.
          elim picked [ none ↦ ok t | some idx ↦ latency_send proto r idx t ])
              ≡ ok t' =
            rw (load, due) at e in
          let (picked, run, rest) =
            >>=-eq-ok (pick_conn t.connections (length t.connections) r.rand) _ e' in
          let sends : round_sends r t ≡ picked_one (ok picked) = rw (load, due, run) in
          after_pick picked run sends rest
    ]
  ]
    where
      Next : Thread → Type 0
      Next t1 = IsLedger 0 t1 × (t1.stats.th_s.tx.reqs ≡ t.stats.th_s.tx.reqs + round_sends r t)

      after_pick :
          (picked : Option ℕ)
          → pick_conn t.connections (length t.connections) r.rand ≡ ok picked
          → round_sends r t ≡ picked_one (ok picked)
          → elim picked [ none ↦ ok t | some idx ↦ latency_send proto r idx t ] ≡ ok t'
          → Next t'
      after_pick none run sends rest = subst Next (ok-injective t t' rest) (h, omega (arith, sends))
      after_pick (some idx) run sends rest =
          let (settled, more) =
            latency_send-IsLedger idx t t'
              (pick_conn-IsPicked t.connections (length t.connections) r.rand idx run) h
              (omega (arith, sends)) rest in
          (settled, omega (arith, sends, more))

-- When the latency agent has sent as many requests as it has taken latency samples and found
-- connections closed, this is so again after every run of rounds that ends, in which every request
-- that is sent is counted and every latency sample is taken, and the counter of requests has grown
-- by exactly the requests that the run sends, as long as the counted requests stay below 2 ^ 32.
pub latency_run-IsLedger :
    (proto : AppProto) (rounds : List LatencyRound) (t t' : Thread)
    → All IsMeasured rounds
    → IsLedger 0 t
    → t.stats.th_s.tx.reqs + run_sends proto rounds t < 2 ^ 32
    → latency_run proto rounds t ≡ ok t'
    → IsLedger 0 t' × (t'.stats.th_s.tx.reqs ≡ t.stats.th_s.tx.reqs + run_sends proto rounds t)
unfolding latency_run
latency_run-IsLedger proto [] t t' measured h few e =
    subst (λ x. IsLedger 0 x × (x.stats.th_s.tx.reqs ≡ t.stats.th_s.tx.reqs + 0))
      (ok-injective t t' e) (h, omega arith)
latency_run-IsLedger proto (r ∷ rounds) t t' measured h few e =
    let (t1, run, rest) = >>=-eq-ok (latency_round proto r t) _ e in
    let sends : run_sends proto (r ∷ rounds) t ≡ round_sends r t + run_sends proto rounds t1 =
      rw run in
    let (h1, more) = latency_round-IsLedger proto r measured.0 t t1 h (omega (arith, sends)) run in
    let (h', all) =
      latency_run-IsLedger proto rounds t1 t' measured.1 h1 (omega (arith, sends, more)) rest in
    (h', omega (arith, sends, more, all))
