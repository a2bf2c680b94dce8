-- ===== src/Stats/Tests.antt =====
-- The statistics of two threads, recorded and aggregated.
pub mod Sorted
use kata_load_test.Base.{
  ℕ, ◌≡◌, ◌≢◌, refl, Option, none, some, List, [], ◌∷◌, arith, length, slice, ok, stop, bad_access,
}
use kata_load_test.Base.Int.{ℤ, pos}
use kata_load_test.Timespec.{Timespec, zero_timespec}
use kata_load_test.Stats.State.{
  no_stats, throughput_agent, symmetric_agent, agent_nr, TxSamples, LatencyStats, ThreadStats,
  AllStats, max_per_thread_tx_samples, zero_throughput,
}
use kata_load_test.Stats.Samples.{clear_stats}
use kata_load_test.Stats.Samples.Rings.{
  HoldsLatest, Recorded, record_tx, record_latency, latencies, add_latency_sample-latest,
  add_tx_timestamp-latest,
}
use kata_load_test.Stats.Aggregate.{aggregate_throughput_stats, aggregate_latency_samples}
use kata_load_test.Stats.Aggregate.Laws.{
  collected, total, Summed, aggregate_throughput_stats-Summed, aggregate_latency_samples-collects,
  aggregate_latency_samples-overflows,
}

abbrev no_tx : TxSamples
no_tx = record { count = 0; samples = λ _. zero_timespec }

-- Three latencies in a ring of two slots.
abbrev three : List (ℤ × Option Timespec)
three = (pos 10, none) ∷ (pos 20, some zero_timespec) ∷ (pos 30, none) ∷ []

symmetric_agent-ne_throughput : symmetric_agent ≢ throughput_agent
symmetric_agent-ne_throughput = λ e. ground arith

symmetric_agent-ne_nr : symmetric_agent ≢ agent_nr
symmetric_agent-ne_nr = λ e. ground arith

add_latency_sample-latest_example :
    (s' : LatencyStats) × (record_latency 2 three (clear_stats symmetric_agent no_stats) ≡ ok s')
    × Recorded 2 (latencies three) s'
add_latency_sample-latest_example =
    add_latency_sample-latest symmetric_agent 2 three no_stats symmetric_agent-ne_throughput
      symmetric_agent-ne_nr (omega arith) (omega arith)

abbrev one_time : List Timespec
one_time = record { sec = pos 5; nsec = pos 6 } ∷ []

add_tx_timestamp-latest_example :
    ((record_tx one_time no_tx).count ≡ length one_time)
    × HoldsLatest (record_tx one_time no_tx).samples max_per_thread_tx_samples one_time
add_tx_timestamp-latest_example = add_tx_timestamp-latest one_time no_tx refl (omega arith)

-- A thread that has received 5 bytes in one request, with `size` samples.
abbrev thread_of : ℕ → ThreadStats
thread_of size = record {
  stats = record no_stats {
    th_s = record { rx = record { bytes = 5; reqs = 1 }; tx = record { bytes = 4; reqs = 1 } };
    count = size;
    size = size;
    samples = λ i. record { nsec = i; tx = zero_timespec };
  };
  tx_s = no_tx;
}

abbrev two_threads : AllStats
two_threads = thread_of 2 ∷ thread_of 1 ∷ []

aggregate_latency_samples-collects_example :
    (out : LatencyStats) × (aggregate_latency_samples symmetric_agent two_threads no_stats ≡ ok out)
    × (out.size ≡ total (λ s. s.size) two_threads)
    × (slice out.samples 0 out.size ≡ collected two_threads)
    × Summed zero_throughput two_threads out.th_s
aggregate_latency_samples-collects_example =
    aggregate_latency_samples-collects symmetric_agent two_threads no_stats symmetric_agent-ne_nr
      (omega arith)

-- Nine threads with full rings of 131072 samples.
abbrev nine_threads : AllStats
nine_threads =
    thread_of 131072
    ∷ thread_of 131072
    ∷ thread_of 131072
    ∷ thread_of 131072
    ∷ thread_of 131072
    ∷ thread_of 131072
    ∷ thread_of 131072
    ∷ thread_of 131072
    ∷ thread_of 131072
    ∷ []

aggregate_latency_samples-overflows_example :
    aggregate_latency_samples symmetric_agent nine_threads no_stats ≡ stop bad_access
aggregate_latency_samples-overflows_example =
    aggregate_latency_samples-overflows symmetric_agent nine_threads no_stats (omega arith)
