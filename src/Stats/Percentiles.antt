-- ===== src/Stats/Percentiles.antt =====
-- The latency percentiles of lancet/agents/stats.c, with their confidence intervals.
pub mod Laws
use kata_load_test.Base.{
  ℕ, ◌+◌, ◌*◌, ◌/◌, ltb, Outcome, ok, stop, assert_failed, bad_access, ◌>>=◌, ◌>>◌, assert, require,
  zero, suc, wrap32, wrap64,
}
use kata_load_test.Base.Int.{pos, to_u64}
use kata_load_test.Rand.Real.{Real}
use kata_load_test.Stats.State.{CiIdx, LatSample, LatencyStats, agg_sample_size}
use kata_load_test.Stats.Sort.{Sort, sample_cmp_latency}

-- The sum of the latencies of the first `n` samples.
abbrev pub sum_latencies : (ℕ → LatSample) → ℕ → ℕ
sum_latencies samples zero = 0
sum_latencies samples (suc n) = wrap64 (sum_latencies samples n + (samples n).nsec)

-- `lt_s->size * q / 100`, in 32 bits.
abbrev pub rank : ℕ → ℕ → ℕ
rank size q = wrap32 (size * q) / 100

-- `lt_s->samples[idx].nsec`; the aggregate has room for `agg_sample_size` samples.
abbrev pub latency_at : (ℕ → LatSample) → ℕ → Outcome ℕ
latency_at samples idx = require (ltb idx agg_sample_size) bad_access >> ok (samples idx).nsec

-- A percentile between the ends of its confidence interval.
pub record Interval : Type 0 where
  pub lower : ℕ
  pub value : ℕ
  pub upper : ℕ

-- The function with the percentiles only; the assertion stands in front of the rest.
unfoldable pub compute_latency_percentiles : LatencyStats → Outcome LatencyStats
compute_latency_percentiles lt_s = stop assert_failed

module _ (F : Real) where
  open F use {R}

  -- The literals 1.96 and q / 100.
  abbrev pub heta : R
  heta = F.literal 196 2

  abbrev pub hundredths : ℕ → R
  hundredths q = F.literal q 2

  -- A double as a uint32_t, as the processor converts it: by way of 64 bits.
  abbrev pub to_uint32 : R → ℕ
  to_uint32 x = wrap32 (to_u64 (F.trunc x))

  unfoldable pub get_ci_bounds : ℕ → R → CiIdx
  get_ci_bounds n p =
      let prod = F.mul (F.of_int (pos n)) p in
      let sq = F.mul heta (F.sqrt (F.mul prod (F.sub (F.of_int (pos 1)) p))) in
      record {
        i = to_uint32 (F.floor (F.sub prod sq));
        k = wrap32 (to_uint32 (F.ceil (F.add prod sq)) + 1);
      }

  unfoldable pub percentile : (ℕ → LatSample) → ℕ → ℕ → Outcome Interval
  unfolding get_ci_bounds
  percentile samples size q = do
    let bounds = get_ci_bounds size (hundredths q)
    value ← latency_at samples (rank size q)
    lower ← latency_at samples bounds.i
    upper ← latency_at samples bounds.k
    ok (record { lower = lower; value = value; upper = upper })

  unfoldable pub compute_latency_percentiles_ci : Sort → LatencyStats → Outcome LatencyStats
  unfolding percentile
  compute_latency_percentiles_ci Q lt_s = do
    let samples = Q.qsort sample_cmp_latency lt_s.size lt_s.samples
    let sum = sum_latencies samples lt_s.size
    assert (ltb 0 lt_s.size)
    p50 ← percentile samples lt_s.size 50
    p90 ← percentile samples lt_s.size 90
    p95 ← percentile samples lt_s.size 95
    p99 ← percentile samples lt_s.size 99
    ok (record lt_s {
      samples = samples;
      avg_lat = sum / lt_s.size;
      p50_i = p50.lower;
      p50 = p50.value;
      p50_k = p50.upper;
      p90_i = p90.lower;
      p90 = p90.value;
      p90_k = p90.upper;
      p95_i = p95.lower;
      p95 = p95.value;
      p95_k = p95.upper;
      p99_i = p99.lower;
      p99 = p99.value;
      p99_k = p99.upper;
    })
