-- ===== src/Stats/Percentiles/Laws.antt =====
-- The percentiles of sorted samples.
use kata_load_test.Base.{
  ℕ, ◌^◌, ◌≤◌, ◌<◌, ◌≡◌, sym, ap, arith, ltb, ok, >>=-eq-ok, ok-injective, assert,
}
use kata_load_test.Rand.Real.{Real}
use kata_load_test.Stats.State.{LatSample, LatencyStats, agg_sample_size}
use kata_load_test.Stats.Sort.{Sort, sample_cmp_latency, IsSorting}
use kata_load_test.Stats.Percentiles.{
  rank, percentile, get_ci_bounds, hundredths, compute_latency_percentiles_ci,
}

pub assert_lt : (a b : ℕ) (u : Unit {0}) → assert (ltb a b) ≡ ok u → a < b
assert_lt a b u e = ground arith

-- The latency at a place in the sorted samples is that of a sample, and separates them.
pub record IsPercentile (s : LatencyStats) (sorted : ℕ → LatSample) (q v : ℕ) : Type 0 where
  pub sample : ℕ
  pub sample_lt : sample < s.size
  pub is_latency : v ≡ (s.samples sample).nsec
  pub from_below : (i : ℕ) → i ≤ rank s.size q → (sorted i).nsec ≤ v
  pub from_above : (i : ℕ) → rank s.size q ≤ i → i < s.size → v ≤ (sorted i).nsec

module _ (F : Real) (Q : Sort) (s : LatencyStats) where
  abbrev sorted : ℕ → LatSample
  sorted = Q.qsort sample_cmp_latency s.size s.samples

  -- The percentiles are put beside the counters and the size.
  pub compute_latency_percentiles_ci-keeps :
      (s' : LatencyStats)
      → compute_latency_percentiles_ci F Q s ≡ ok s'
      → (s'.th_s ≡ s.th_s) × (s'.size ≡ s.size)
  unfolding compute_latency_percentiles_ci
  compute_latency_percentiles_ci-keeps s' e =
      let (u, _, e1) = >>=-eq-ok (assert (ltb 0 s.size)) _ e in
      let (p50, _, e2) = >>=-eq-ok (percentile F sorted s.size 50) _ e1 in
      let (p90, _, e3) = >>=-eq-ok (percentile F sorted s.size 90) _ e2 in
      let (p95, _, e4) = >>=-eq-ok (percentile F sorted s.size 95) _ e3 in
      let (p99, _, e5) = >>=-eq-ok (percentile F sorted s.size 99) _ e4 in
      let same = ok-injective _ s' e5 in (sym (ap (λ x. x.th_s) same), sym (ap (λ x. x.size) same))

  module _ (sorts : IsSorting Q sample_cmp_latency s.size s.samples)
      (small : (i : ℕ) → i < s.size → (s.samples i).nsec < 2 ^ 31) where
    abbrev pub Percentiles : LatencyStats → Type 0
    Percentiles s' =
        IsPercentile s s'.samples 50 s'.p50
        × IsPercentile s s'.samples 90 s'.p90
        × IsPercentile s s'.samples 95 s'.p95
        × IsPercentile s s'.samples 99 s'.p99
        × (s'.p50 ≤ s'.p90)
        × (s'.p90 ≤ s'.p95)
        × (s'.p95 ≤ s'.p99)

    -- The interval for a percentile lies inside the aggregate's array.
    abbrev pub HasRoom : ℕ → Type 0
    HasRoom q =
        ((get_ci_bounds F s.size (hundredths F q)).i < agg_sample_size)
        × ((get_ci_bounds F s.size (hundredths F q)).k < agg_sample_size)
