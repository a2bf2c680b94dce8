-- ===== src/Stats/Tests/Sorted.antt =====
-- The sorted statistics on arrays that are sorted already, with a qsort that leaves them as they are.
use kata_load_test.Base.{ℕ, ◌+◌, ◌*◌, ◌^◌, ◌≤◌, ◌<◌, refl, arith, ltb, [], ◌∷◌, copy, if◌then◌else◌}
use kata_load_test.Base.Int.{ℤ, pos}
use kata_load_test.Timespec.{Timespec, zero_timespec}
use kata_load_test.Rand.Real.{Real}
use kata_load_test.Rand.Tests.{integers}
use kata_load_test.Stats.State.{LatSample, LatencyStats, AllStats, no_stats}
use kata_load_test.Stats.Sort.{Sort, Agrees, IsSorting, sample_cmp_latency, sample_cmp_tx}
use kata_load_test.Stats.Sort.Laws.{sample_cmp_latency-Agrees}
use kata_load_test.Stats.Percentiles.Laws.{Percentiles}
use kata_load_test.Stats.Ks.{ks_sorted, compute_convergence}
use kata_load_test.Stats.Ks.Convergence.{IsShuffled, IsOrdered, compute_convergence-shuffles}
use kata_load_test.Stats.Ks.Laws.{IsMerged, ks_sorted-IsMerged}

abbrev pub no_sort : Sort
no_sort = record { qsort = λ cmp n f. f }

-- It sorts an array that is sorted.
pub no_sort-IsSorting :
    {A : Type 0} (cmp : A → A → ℤ) (rank : A → ℕ) (n : ℕ) (f : ℕ → A)
    → Agrees cmp rank n f
    → ((i j : ℕ) → i ≤ j → j < n → rank (f i) ≤ rank (f j))
    → IsSorting no_sort cmp n f
no_sort-IsSorting cmp rank n f agrees sorted = record {
  keeps = λ i h. refl;
  source = λ i. i;
  target = λ i. i;
  source_lt = λ i h. h;
  target_lt = λ i h. h;
  source_target = λ i h. refl;
  target_source = λ i h. refl;
  permutes = λ i h. refl;
  sorts = λ key a i j le lt.
      (a.below i j (omega arith) lt).0 ((agrees.below i j (omega arith) lt).1 (sorted i j le lt));
}

-- Literals are 0, so that the confidence intervals are small.
abbrev small_constants : Real
small_constants = record integers { literal = λ n d. pos 0 }

abbrev two_samples : LatencyStats
two_samples = record no_stats { size = 2; samples = λ i. record { nsec = i; tx = zero_timespec } }

abbrev samples_sorted : IsSorting no_sort sample_cmp_latency 2 two_samples.samples
samples_sorted =
    no_sort-IsSorting sample_cmp_latency (λ s. s.nsec) 2 two_samples.samples
      (sample_cmp_latency-Agrees 2 two_samples.samples (λ i h. omega arith)) (λ i j le lt. le)

abbrev samples_small : (i : ℕ) → i < 2 → i < 2 ^ 31
samples_small i h = omega arith

ks_sorted-IsMerged_example :
    IsMerged
      (λ i. i)
      (λ i. i * 2)
      4
      3
      (λ i j le lt. le)
      (λ i j le lt. omega arith)
      integers
      (ks_sorted integers (λ i. i) (λ i. i * 2) 4 3 (pos 0))
ks_sorted-IsMerged_example =
    ks_sorted-IsMerged (λ i. i) (λ i. i * 2) 4 3 (λ i j le lt. le) (λ i j le lt. omega arith)
      integers (pos 0)

-- A request each 10 ns.
abbrev regular : ℕ → Timespec
regular i = record { sec = pos 5; nsec = pos (if ltb i 3 then i * 10 else 0) }

-- One thread that has sent three requests.
abbrev one_sender : AllStats
one_sender = record { tx_s = record { count = 3; samples = regular }; stats = no_stats } ∷ []

abbrev three_times : ℕ → Timespec
three_times = copy (λ i. zero_timespec) 0 regular 3

-- Four samples that were sent at the same time.
abbrev at_once : ℕ → LatSample
at_once i = record { nsec = i; tx = zero_timespec }

at_once-sorted_by_tx : IsSorting no_sort sample_cmp_tx 4 at_once
at_once-sorted_by_tx =
    no_sort-IsSorting sample_cmp_tx (λ s. 0) 4 at_once
      (record {
        below = λ i j h k. (λ e. omega arith, λ e. omega arith);
        above = λ i j h k. (λ e. omega arith, λ e. omega arith);
      })
      (λ i j le lt. omega arith)

lower_sorted : IsSorting no_sort sample_cmp_latency 2 at_once
lower_sorted =
    no_sort-IsSorting sample_cmp_latency (λ s. s.nsec) 2 at_once
      (sample_cmp_latency-Agrees 2 at_once (λ i lt. omega arith)) (λ i j le lt. le)

upper_sorted : IsSorting no_sort sample_cmp_latency 2 (λ i. at_once (2 + i))
upper_sorted =
    no_sort-IsSorting sample_cmp_latency (λ s. s.nsec) 2 (λ i. at_once (2 + i))
      (sample_cmp_latency-Agrees 2 (λ i. at_once (2 + i)) (λ i lt. omega arith))
      (λ i j le lt. omega arith)

compute_convergence-shuffles_example :
    IsShuffled 4 at_once (compute_convergence integers no_sort (pos 0) at_once 4).1
    × IsOrdered 0 2 (compute_convergence integers no_sort (pos 0) at_once 4).1
    × IsOrdered 2 2 (compute_convergence integers no_sort (pos 0) at_once 4).1
compute_convergence-shuffles_example =
    compute_convergence-shuffles integers no_sort (pos 0) at_once 4 at_once-sorted_by_tx
      lower_sorted upper_sorted (λ i h. omega arith)
