-- ===== src/Stats/Independence.antt =====
-- `check_iid` of lancet/agents/stats.c: the correlation of each latency with the next.
pub mod Laws
use kata_load_test.Base.{
  ℕ, zero, suc, ◌+◌, ◌-◌, ◌*◌, ltb, Outcome, ok, bad_access, ◌>>◌, require, wrap64,
}
use kata_load_test.Base.Int.{pos}
use kata_load_test.Rand.Real.{Real}
use kata_load_test.Stats.State.{LatSample, LatencyStats}
use kata_load_test.Stats.Sort.{Sort, sample_cmp_tx}

-- The sum of a function of the `n` latencies from index 1 on, in uint64_t.
abbrev pub sum_from_1 : (ℕ → ℕ) → (ℕ → LatSample) → ℕ → ℕ
sum_from_1 f samples zero = 0
sum_from_1 f samples (suc n) = wrap64 (sum_from_1 f samples n + f (samples (suc n)).nsec)

abbrev pub square : ℕ → ℕ
square n = wrap64 (n * n)

module _ (F : Real) where
  open F use {R}

  abbrev real : ℕ → R
  real n = F.of_int (pos n)

  -- The sum of the products of the deviations of the first `n` latencies and their successors.
  abbrev pub cov_sum : R → R → (ℕ → LatSample) → ℕ → R
  cov_sum avg_x avg_y samples zero = real 0
  cov_sum avg_x avg_y samples (suc n) =
      F.add (cov_sum avg_x avg_y samples n)
        (F.mul (F.sub (real (samples n).nsec) avg_x) (F.sub (real (samples (suc n)).nsec) avg_y))

  -- With the samples afterwards. `size` is unsigned: without a sample the last index is 2 ^ 32 - 1,
  -- which is behind the array.
  unfoldable pub check_iid : Sort → LatencyStats → Outcome (R × (ℕ → LatSample))
  check_iid Q lt_s = do
    let x = Q.qsort sample_cmp_tx lt_s.size lt_s.samples
    require (ltb 0 lt_s.size) bad_access
    let last = lt_s.size - 1
    let sum = sum_from_1 (λ n. n) x (last - 1)
    let sum_of_squares = sum_from_1 square x (last - 1)
    let mean = λ (n : ℕ). F.div (real n) (real last)
    let avg_x = mean (wrap64 (sum + (x 0).nsec))
    let avg_y = mean (wrap64 (sum + (x last).nsec))
    let avg_sqr_x = mean (wrap64 (sum_of_squares + square (x 0).nsec))
    let avg_sqr_y = mean (wrap64 (sum_of_squares + square (x last).nsec))
    let sx = F.sqrt (F.sub avg_sqr_x (F.mul avg_x avg_x))
    let sy = F.sqrt (F.sub avg_sqr_y (F.mul avg_y avg_y))
    let cov = F.div (cov_sum avg_x avg_y x last) (real last)
    ok (F.div cov (F.mul sx sy), x)
