-- ===== src/Stats/Aggregate/Laws.antt =====
-- The aggregate holds every thread's samples, and its counters are the threads' sums.
use mathlib.Core.List.{append-nil, append_assoc}
use kata_load_test.Base.{
  ℕ, ◌+◌, ◌^◌, ◌≤◌, ◌<◌, ◌≡◌, ◌≢◌, List, [], ◌∷◌, ◌++◌, arith, ok, stop, bad_access, le→leb, slice,
  slice-append, slice-copy_low, slice-copy_high, wrap64,
}
use kata_load_test.Stats.State.{
  AgentType, LatSample, LatencyStats, ThroughputStats, AllStats, agg_sample_size, zero_sample,
  zero_throughput, agent_nr,
}
use kata_load_test.Stats.Samples.{clear_stats}
use kata_load_test.Stats.Aggregate.{
  add_counters, add_threads, copied_thread, aggregate_throughput_stats, copy_threads,
  aggregate_latency_samples,
}

-- The samples that the threads say they hold, in slot order, thread after thread.
abbrev pub collected : AllStats → List LatSample
collected [] = []
collected (t ∷ all) = slice t.stats.samples 0 t.stats.size ++ collected all

-- A number of each thread's statistics, summed over the threads.
abbrev pub total : (LatencyStats → ℕ) → AllStats → ℕ
total count [] = 0
total count (t ∷ all) = count t.stats + total count all

-- The counters `out` are those of `start` with the threads' added, in uint64_t.
pub record Summed (start : ThroughputStats) (all : AllStats) (out : ThroughputStats) : Type 0 where
  pub rx_bytes : out.rx.bytes ≡ wrap64 (start.rx.bytes + total (λ s. s.th_s.rx.bytes) all)
  pub rx_reqs : out.rx.reqs ≡ wrap64 (start.rx.reqs + total (λ s. s.th_s.rx.reqs) all)
  pub tx_bytes : out.tx.bytes ≡ wrap64 (start.tx.bytes + total (λ s. s.th_s.tx.bytes) all)
  pub tx_reqs : out.tx.reqs ≡ wrap64 (start.tx.reqs + total (λ s. s.th_s.tx.reqs) all)

record IsU64 (c : ThroughputStats) : Type 0 where
  rx_bytes : c.rx.bytes < 2 ^ 64
  rx_reqs : c.rx.reqs < 2 ^ 64
  tx_bytes : c.tx.bytes < 2 ^ 64
  tx_reqs : c.tx.reqs < 2 ^ 64

add_threads-Summed :
    (all : AllStats) (agg : LatencyStats)
    → IsU64 agg.th_s
    → Summed agg.th_s all (add_threads all agg).th_s
unfolding add_threads
add_threads-Summed [] agg u = omega arith
add_threads-Summed (t ∷ all) agg u =
    let ih = add_threads-Summed all (add_counters agg t.stats) (omega arith) in
    omega (arith, ih.rx_bytes, ih.rx_reqs, ih.tx_bytes, ih.tx_reqs)

cleared :
    (atype : AgentType) (s : LatencyStats)
    → atype ≢ agent_nr
    → (clear_stats atype s).th_s ≡ zero_throughput
unfolding clear_stats
cleared atype s h = ground arith

-- After `aggregate_throughput_stats` each counter of the aggregate is the sum of the threads'
-- counters, as a uint64_t, for each of the four agent types; what the aggregate held before is gone.
pub aggregate_throughput_stats-Summed :
    (atype : AgentType) (all : AllStats) (agg_stats : LatencyStats)
    → atype ≢ agent_nr
    → Summed zero_throughput all (aggregate_throughput_stats atype all agg_stats).th_s
unfolding aggregate_throughput_stats
aggregate_throughput_stats-Summed atype all agg_stats h =
    let c = cleared atype agg_stats h in
    rw (← c) (add_threads-Summed all (clear_stats atype agg_stats) (rw c (omega arith)))

-- What the copying loop has made of `agg`, which held `n` samples.
record Copied (all : AllStats) (n : ℕ) (agg out : LatencyStats) : Type 0 where
  samples :
      slice out.samples 0 (n + total (λ s. s.size) all) ≡ slice agg.samples 0 n ++ collected all
  counters : Summed agg.th_s all out.th_s

copy_threads-Copied :
    (all : AllStats) (n : ℕ) (agg : LatencyStats)
    → IsU64 agg.th_s
    → n + total (λ s. s.size) all ≤ agg_sample_size
    → (out : LatencyStats) × (copy_threads all n agg ≡ ok (n + total (λ s. s.size) all, out))
      × Copied all n agg out
unfolding copy_threads
copy_threads-Copied [] n agg u fits = (
  agg,
  ground arith,
  record { samples = ground (arith, append-nil (slice agg.samples 0 n)); counters = omega arith },
)
copy_threads-Copied (t ∷ all) n agg u fits =
    let agg' = copied_thread t.stats n agg in
    let ih = copy_threads-Copied all (n + t.stats.size) agg' (omega arith) (omega arith) in
    let sums = ih.2.counters in
    (
      ih.0,
      ground (arith, ih.1, le→leb (n + t.stats.size) agg_sample_size (omega arith)),
      record {
        samples = ground (
          arith,
          ih.2.samples,
          slice-append agg'.samples 0 n t.stats.size,
          slice-copy_low agg.samples t.stats.samples n t.stats.size,
          slice-copy_high agg.samples t.stats.samples n t.stats.size,
          append_assoc (slice agg.samples 0 n) (slice t.stats.samples 0 t.stats.size)
              (collected all),
        );
        counters = omega (arith, sums.rx_bytes, sums.rx_reqs, sums.tx_bytes, sums.tx_reqs);
      },
    )

-- If the threads' sizes add up to at most the 0x100000 samples of the aggregate, for each of the
-- four agent types,
-- `aggregate_latency_samples` succeeds: its size is their sum, its samples up to that are all the
-- samples that the threads hold, thread after thread, and its counters are their sums.
pub aggregate_latency_samples-collects :
    (atype : AgentType) (all : AllStats) (agg_stats : LatencyStats)
    → atype ≢ agent_nr
    → total (λ s. s.size) all ≤ agg_sample_size
    → (out : LatencyStats) × (aggregate_latency_samples atype all agg_stats ≡ ok out)
      × (out.size ≡ total (λ s. s.size) all)
      × (slice out.samples 0 out.size ≡ collected all)
      × Summed zero_throughput all out.th_s
unfolding aggregate_latency_samples
aggregate_latency_samples-collects atype all agg_stats h fits =
    let start = record (clear_stats atype agg_stats) { samples = λ _. zero_sample } in
    let c = cleared atype agg_stats h in
    let go = copy_threads-Copied all 0 start (rw c (omega arith)) (omega arith) in
    (
      record go.0 { size = 0 + total (λ s. s.size) all },
      rw go.1,
      omega arith,
      ground (arith, go.2.samples),
      rw (← c) go.2.counters,
    )

copy_threads_overflows :
    (all : AllStats) (n : ℕ) (agg : LatencyStats)
    → n ≤ agg_sample_size
    → agg_sample_size < n + total (λ s. s.size) all
    → copy_threads all n agg ≡ stop bad_access
unfolding copy_threads
copy_threads_overflows [] n agg le over = absurd (omega arith)
copy_threads_overflows (t ∷ all) n agg le over =
    ground (arith, copy_threads_overflows all (n + t.stats.size) (copied_thread t.stats n agg))

-- If the sizes of the threads' samples add up to more than the 0x100000 samples of the aggregate,
-- `aggregate_latency_samples` writes behind the aggregate's memory.
pub aggregate_latency_samples-overflows :
    (atype : AgentType) (all : AllStats) (agg_stats : LatencyStats)
    → agg_sample_size < total (λ s. s.size) all
    → aggregate_latency_samples atype all agg_stats ≡ stop bad_access
unfolding aggregate_latency_samples
aggregate_latency_samples-overflows atype all agg_stats over =
    rw (copy_threads_overflows all 0 _ (omega arith) (omega arith))
