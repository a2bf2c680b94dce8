-- ===== src/Stats/State.antt =====
-- The data of lancet/inc/lancet/stats.h and of the file-level variables of lancet/agents/stats.c.
use kata_load_test.Base.{ℕ, List}
use kata_load_test.Timespec.{Timespec, zero_timespec}

abbrev pub max_per_thread_samples : ℕ
max_per_thread_samples = 131072

abbrev pub max_per_thread_tx_samples : ℕ
max_per_thread_tx_samples = 2048

abbrev pub agg_sample_size : ℕ
agg_sample_size = 0x100000

-- `enum agent_type`
pub data AgentType : Type 0 where
  throughput_agent latency_agent symmetric_nic_timestamp_agent symmetric_agent agent_nr : AgentType

pub record ByteReqPair : Type 0 where
  pub bytes : ℕ
  pub reqs : ℕ

pub record CiIdx : Type 0 where
  pub i : ℕ
  pub k : ℕ

pub record TxSamples : Type 0 where
  pub count : ℕ
  pub samples : ℕ → Timespec

pub record ThroughputStats : Type 0 where
  pub rx : ByteReqPair
  pub tx : ByteReqPair

pub record LatSample : Type 0 where
  pub nsec : ℕ
  pub tx : Timespec

-- `struct latency_stats`. It begins with a `struct throughput_stats`, the other member of
-- `union stats`: a `union stats` is this record, and its member `th_s` the field `th_s`.
pub record LatencyStats : Type 0 where
  pub th_s : ThroughputStats
  pub sum_lat : ℕ
  pub count : ℕ
  pub size : ℕ
  pub avg_lat : ℕ
  pub p50_i : ℕ
  pub p50 : ℕ
  pub p50_k : ℕ
  pub p90_i : ℕ
  pub p90 : ℕ
  pub p90_k : ℕ
  pub p95_i : ℕ
  pub p95 : ℕ
  pub p95_k : ℕ
  pub p99_i : ℕ
  pub p99 : ℕ
  pub p99_k : ℕ
  pub samples : ℕ → LatSample

-- What one thread registers: its `thread_stats` and `tx_s`.
pub record ThreadStats : Type 0 where
  pub stats : LatencyStats
  pub tx_s : TxSamples

-- `all_stats` and `all_tx`, up to `agent_count`, by thread.
abbrev pub AllStats : Type 0
AllStats = List ThreadStats

abbrev pub zero_pair : ByteReqPair
zero_pair = record { bytes = 0; reqs = 0 }

abbrev pub zero_throughput : ThroughputStats
zero_throughput = record { rx = zero_pair; tx = zero_pair }

abbrev pub zero_sample : LatSample
zero_sample = record { nsec = 0; tx = zero_timespec }

-- Statistics with nothing recorded.
abbrev pub no_stats : LatencyStats
no_stats = record {
  th_s = zero_throughput;
  sum_lat = 0;
  count = 0;
  size = 0;
  avg_lat = 0;
  p50_i = 0;
  p50 = 0;
  p50_k = 0;
  p90_i = 0;
  p90 = 0;
  p90_k = 0;
  p95_i = 0;
  p95 = 0;
  p95_k = 0;
  p99_i = 0;
  p99 = 0;
  p99_k = 0;
  samples = λ _. zero_sample;
}
