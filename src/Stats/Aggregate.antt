-- ===== src/Stats/Aggregate.antt =====
-- `aggregate_throughput_stats` and `aggregate_latency_samples` of lancet/agents/stats.c: the manager
-- adds up what the threads have counted and copies their samples behind one another.
pub mod Laws
use kata_load_test.Base.{
  ℕ, zero, suc, ◌+◌, ◌%◌, ◌^◌, ◌≤◌, ◌<◌, ◌≡◌, refl, List, [], ◌∷◌, ◌++◌, arith, leb, ltb, Outcome,
  ok, stop, bad_access, ◌>>=◌, ◌>>◌, require, copy, slice, slice-cong, wrap32, wrap64, length,
  length-append, if◌then◌else◌, ◌&&◌, All, Bool-cases, inl, inr,
}
use kata_load_test.Stats.State.{
  AgentType, LatSample, LatencyStats, ThreadStats, ThroughputStats, AllStats, agg_sample_size,
  zero_sample, ByteReqPair,
}
use kata_load_test.Stats.Samples.{add_pair, clear_stats}

-- One round of the loop of `aggregate_throughput_stats`.
abbrev pub add_counters : LatencyStats → LatencyStats → LatencyStats
add_counters agg s = record agg {
  th_s = record { rx = add_pair agg.th_s.rx s.th_s.rx; tx = add_pair agg.th_s.tx s.th_s.tx };
}

unfoldable pub add_threads : AllStats → LatencyStats → LatencyStats
add_threads [] agg = agg
add_threads (t ∷ all) agg = add_threads all (add_counters agg t.stats)

unfoldable pub aggregate_throughput_stats : AgentType → AllStats → LatencyStats → LatencyStats
unfolding add_threads clear_stats
aggregate_throughput_stats atype all agg_stats = add_threads all (clear_stats atype agg_stats)

-- One round of the loop of `aggregate_latency_samples`: `memcpy` of the `size` samples in use to
-- index `agg_count`.
abbrev pub copied_thread : LatencyStats → ℕ → LatencyStats → LatencyStats
copied_thread s agg_count agg = record (add_counters agg s) {
  samples = copy agg.samples agg_count s.samples s.size;
}

-- The loop of `aggregate_latency_samples`: the aggregate has room for `agg_sample_size` samples, and
-- a copy beyond that is an access out of bounds.
unfoldable pub copy_threads : AllStats → ℕ → LatencyStats → Outcome (ℕ × LatencyStats)
copy_threads [] agg_count agg = ok (agg_count, agg)
copy_threads (t ∷ all) agg_count agg = do
  require (leb (agg_count + t.stats.size) agg_sample_size) bad_access
  copy_threads all (agg_count + t.stats.size) (copied_thread t.stats agg_count agg)

unfoldable pub aggregate_latency_samples :
    AgentType → AllStats → LatencyStats → Outcome LatencyStats
unfolding copy_threads clear_stats
aggregate_latency_samples atype all agg_stats = do
  (agg_count, agg) ←
      copy_threads all 0 (record (clear_stats atype agg_stats) { samples = λ _. zero_sample })
  ok (record agg { size = agg_count })
