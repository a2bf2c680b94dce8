-- ===== src/Stats/Samples.antt =====
-- The operations of lancet/agents/stats.c by which a thread records what it sends and receives.
-- `measure` is the answer of `should_measure()`.
pub mod Rings
use kata_load_test.Base.{
  ℕ, ◌+◌, ◌%◌, Bool, true, false, not, ◌||◌, ◌&&◌, Option, none, some, ◌==◌, ltb, leb,
  if◌then◌else◌, update, wrap32, wrap64, Outcome, ok, stop, divide_by_zero, ◌>>=◌, ◌>>◌, require,
  assert, List, [], ◌∷◌, ◌++◌, length, map,
}
use kata_load_test.Base.Int.{ℤ, to_u64}
use kata_load_test.Timespec.{Timespec}
use kata_load_test.Stats.State.{
  AgentType, throughput_agent, latency_agent, symmetric_nic_timestamp_agent, symmetric_agent,
  agent_nr, ByteReqPair, TxSamples, ThroughputStats, LatSample, LatencyStats, ThreadStats, AllStats,
  max_per_thread_samples, max_per_thread_tx_samples, zero_throughput,
}

-- `p->bytes += q.bytes; p->reqs += q.reqs`, in uint64_t.
abbrev pub add_pair : ByteReqPair → ByteReqPair → ByteReqPair
add_pair p q = record { bytes = wrap64 (p.bytes + q.bytes); reqs = wrap64 (p.reqs + q.reqs) }

unfoldable pub add_throughput_tx_sample : Bool → ByteReqPair → LatencyStats → LatencyStats
add_throughput_tx_sample measure tx_p s =
    if not measure
    then s
    else record s { th_s = record { rx = s.th_s.rx; tx = add_pair s.th_s.tx tx_p } }

unfoldable pub add_throughput_rx_sample : Bool → ByteReqPair → LatencyStats → LatencyStats
add_throughput_rx_sample measure rx_p s =
    if not measure
    then s
    else record s { th_s = record { rx = add_pair s.th_s.rx rx_p; tx = s.th_s.tx } }

unfoldable pub add_tx_timestamp : Bool → Timespec → TxSamples → TxSamples
add_tx_timestamp measure tx_ts t = if not measure then t else record {
  count = wrap32 (t.count + 1);
  samples = update t.samples (t.count % max_per_thread_tx_samples) tx_ts;
}

-- The slot after `lts->nsec = diff; if (tx) lts->tx = *tx;`.
abbrev pub write_sample : LatSample → ℤ → Option Timespec → LatSample
write_sample old diff none = record { nsec = to_u64 diff; tx = old.tx }
write_sample old diff (some tx) = record { nsec = to_u64 diff; tx = tx }

abbrev pub store_sample : ℕ → ℤ → Option Timespec → LatencyStats → LatencyStats
store_sample per_thread_samples diff tx s = record s {
  count = wrap32 (s.count + 1);
  samples =
      update s.samples (s.count % per_thread_samples)
        (write_sample (s.samples (s.count % per_thread_samples)) diff tx);
  size =
      if ltb per_thread_samples (wrap32 (s.count + 1))
      then per_thread_samples
      else wrap32 (s.count + 1);
}

-- `skip` is the outcome of the test `drand48() > sampling_rate`. `per_thread_samples` is 0 until
-- `set_per_thread_samples` has run, and then `count++ % per_thread_samples` divides by zero.
unfoldable pub add_latency_sample :
    Bool → Bool → ℕ → ℤ → Option Timespec → LatencyStats → Outcome LatencyStats
add_latency_sample measure skip per_thread_samples diff tx s =
    if not measure || skip
    then ok s
    else if per_thread_samples == 0
    then stop divide_by_zero
    else ok (store_sample per_thread_samples diff tx s)

-- The new value of `per_thread_samples`. (`samples` is a C int; a negative one fails the second
-- assertion as 0 does.)
unfoldable pub set_per_thread_samples : ℕ → Outcome ℕ
set_per_thread_samples samples = do
  assert (leb samples max_per_thread_samples)
  assert (ltb 0 samples)
  ok samples

-- `bzero` of the `struct latency_stats` leaves the flexible array behind it as it is.
abbrev pub zero_header : LatencyStats → LatencyStats
zero_header s = record {
  th_s = zero_throughput;
  sum_lat = 0;
  count = 0;
  size = 0;
  avg_lat = 0;
  p50_i = 0;
  p50 = 0;
  p50_k = 0;
  p90_i = 0;
  p90 = 0;
  p90_k = 0;
  p95_i = 0;
  p95 = 0;
  p95_k = 0;
  p99_i = 0;
  p99 = 0;
  p99_k = 0;
  samples = s.samples;
}

unfoldable pub clear_stats : AgentType → LatencyStats → LatencyStats
clear_stats throughput_agent s = record s { th_s = zero_throughput }
clear_stats latency_agent s = zero_header s
clear_stats symmetric_nic_timestamp_agent s = zero_header s
clear_stats symmetric_agent s = zero_header s
clear_stats agent_nr s = s

-- One round of the loop of `clear_all_stats`.
unfoldable pub clear_thread : AgentType → ThreadStats → ThreadStats
unfolding clear_stats
clear_thread atype t = record {
  stats = clear_stats atype t.stats;
  tx_s = record { count = 0; samples = t.tx_s.samples };
}

unfoldable pub clear_all_stats : AgentType → AllStats → AllStats
unfolding clear_thread
clear_all_stats atype all = map (clear_thread atype) all

-- A thread registers the memory that it allocated: `fresh` holds what malloc left in it, and of
-- the thread-local `tx_s` only the count is reset. There is room for 64 threads.
unfoldable pub init_per_thread_stats : ThreadStats → AllStats → Outcome AllStats
init_per_thread_stats fresh all = do
  assert (ltb (length all) 64)
  ok (
      all
      ++ record { stats = fresh.stats; tx_s = record { count = 0; samples = fresh.tx_s.samples } }
        ∷ [])
