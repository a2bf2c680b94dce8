-- ===== src/Stats/Sort/Laws.antt =====
-- When the comparisons of latencies are consistent.
use kata_load_test.Base.{ℕ, ◌^◌, ◌≤◌, ◌<◌, ◌↔◌, arith}
use kata_load_test.Base.Int.{pos, ◌≤ℤ◌}
use kata_load_test.Stats.State.{LatSample}
use kata_load_test.Stats.Sort.{long_compare, sample_cmp_latency, Agrees}

-- Numbers below 2 ^ 31 are compared right, though the difference is cut to an int.
pub long_compare-below : (a b : ℕ) → a < 2 ^ 31 → b < 2 ^ 31 → (long_compare a b ≤ℤ pos 0) ↔ (a ≤ b)
long_compare-below a b h k = ground arith

pub long_compare-above : (a b : ℕ) → a < 2 ^ 31 → b < 2 ^ 31 → (pos 0 ≤ℤ long_compare a b) ↔ (b ≤ a)
long_compare-above a b h k = ground arith

pub sample_cmp_latency-Agrees :
    (n : ℕ) (f : ℕ → LatSample)
    → ((i : ℕ) → i < n → (f i).nsec < 2 ^ 31)
    → Agrees sample_cmp_latency (λ s. s.nsec) n f
sample_cmp_latency-Agrees n f small = record {
  below = λ i j hi hj. long_compare-below (f i).nsec (f j).nsec (small i hi) (small j hj);
  above = λ i j hi hj. long_compare-above (f i).nsec (f j).nsec (small i hi) (small j hj);
}
