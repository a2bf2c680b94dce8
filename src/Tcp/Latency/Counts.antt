-- ===== src/Tcp/Latency/Counts.antt =====
-- What a request, an answer and a closed connection change of the counts of the latency agent.
use kata_load_test.Base.{
  ℕ, zero, suc, ◌+◌, ◌^◌, ◌<◌, ◌≡◌, refl, sym, ap, ◌∙◌, arith, true, false, not, length, Bool, none,
  some, List, [], ◌∷◌, get_elem?, set, ok, ok-injective, ◌==◌, if◌then◌else◌, Bool-cases, inl, inr,
  stop, divide_by_zero,
}
use mathlib.Core.Option
use kata_load_test.Base.Int.{ℤ, ltb_ℤ}
use kata_load_test.Stats.State.{ByteReqPair, LatencyStats}
use kata_load_test.Stats.Samples.{
  add_throughput_tx_sample, add_throughput_rx_sample, add_latency_sample, store_sample,
}
use kata_load_test.AppProto.Response.{AppProto}
use kata_load_test.Tcp.Connection.{TcpConnection, pick_conn}
use kata_load_test.Tcp.Balance.{picked_one, going_on}
use kata_load_test.Tcp.Thread.{Thread}
use kata_load_test.Tcp.Latency.{LatencyRound, latency_round}

abbrev pub closed_one : TcpConnection → ℕ
closed_one c = if c.closed then 1 else 0

-- How many connections are closed.
abbrev pub closed_count : List TcpConnection → ℕ
closed_count [] = 0
closed_count (c ∷ cs) = closed_one c + closed_count cs

pub closed_count-set :
    (cs : List TcpConnection) (i : ℕ) (c c' : TcpConnection)
    → get_elem? cs i ≡ some c
    → closed_count (set cs i c') + closed_one c ≡ closed_count cs + closed_one c'
closed_count-set [] i c c' h = absurd (ground arith)
closed_count-set (x ∷ cs) zero c c' h =
    let e : closed_one x ≡ closed_one c = ap closed_one (Option.some-injective x c h) in
    omega (arith, e)
closed_count-set (x ∷ cs) (suc i) c c' h = omega (arith, closed_count-set cs i c c' h)

-- A round that takes every sample.
abbrev pub IsMeasured : LatencyRound → Type 0
IsMeasured r = (r.measure_tx ≡ true) × (r.measure_latency ≡ true) × (r.skip_latency ≡ false)

-- The requests sent, the latency samples taken, and the closed connections.
pub record IsLedger (waiting : ℕ) (t : Thread) : Type 0 where
  pub balance : t.stats.th_s.tx.reqs ≡ t.stats.count + closed_count t.connections + waiting
  pub few : t.stats.th_s.tx.reqs < 2 ^ 32

pub rx_sample-keeps :
    (m : Bool) (p : ByteReqPair) (s : LatencyStats)
    → ((add_throughput_rx_sample m p s).count ≡ s.count)
      × ((add_throughput_rx_sample m p s).th_s.tx.reqs ≡ s.th_s.tx.reqs)
unfolding add_throughput_rx_sample
rx_sample-keeps m p s = ground arith

pub latency_sample-counts :
    (measure skip : Bool) (per : ℕ) (diff : ℤ) (s s' : LatencyStats)
    → measure ≡ true
    → skip ≡ false
    → suc s.count < 2 ^ 32
    → add_latency_sample measure skip per diff none s ≡ ok s'
    → (s'.count ≡ suc s.count) × (s'.th_s.tx.reqs ≡ s.th_s.tx.reqs)
unfolding add_latency_sample
latency_sample-counts measure skip per diff s s' m k h e = elim (Bool-cases (per == 0)) [
  | inl none_yet ↦
      let e' : if◌then◌else◌ (per == 0) (stop divide_by_zero) (ok (store_sample per diff none s))
          ≡ ok s' =
        rw (m, k) at e in
      absurd (ground arith)
  | inr some_per ↦
      let e' : ok (store_sample per diff none s) ≡ ok s' = rw (m, k, some_per) at e in
      let same = ok-injective (store_sample per diff none s) s' e' in
      (sym (ap (λ x. x.count) same) ∙ omega arith, sym (ap (λ x. x.th_s.tx.reqs) same))
]

pub tx_sample-counts :
    (measure : Bool) (n : ℕ) (s : LatencyStats)
    → measure ≡ true
    → suc s.th_s.tx.reqs < 2 ^ 32
    → ((add_throughput_tx_sample measure (record { bytes = n; reqs = 1 }) s).count ≡ s.count)
      × ((add_throughput_tx_sample measure (record { bytes = n; reqs = 1 }) s).th_s.tx.reqs
          ≡ suc s.th_s.tx.reqs)
unfolding add_throughput_tx_sample
tx_sample-counts measure n s m h = rw m (refl, omega arith)

-- How many requests a round sends, and a run of rounds, from the thread that it starts with.
abbrev pub round_sends : LatencyRound → Thread → ℕ
round_sends r t =
    if not r.load
    then 0
    else if ltb_ℤ r.now t.next_tx
    then 0
    else picked_one (pick_conn t.connections (length t.connections) r.rand)

abbrev pub run_sends : AppProto → List LatencyRound → Thread → ℕ
run_sends proto [] t = 0
run_sends proto (r ∷ rounds) t =
    round_sends r t + going_on (latency_round proto r t) 0 (run_sends proto rounds)
