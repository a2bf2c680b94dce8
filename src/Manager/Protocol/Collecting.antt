-- ===== src/Manager/Protocol/Collecting.antt =====
-- That the manager can collect the samples of the threads, and what a report in front of the first
-- measurement does.
use kata_load_test.Base.{
  ℕ, ◌*◌, ◌≤◌, ◌<◌, ◌≡◌, refl, false, Option, List, [], ◌∷◌, arith, length, ok, stop,
  divide_by_zero, slice,
}
use kata_load_test.Base.Int.{ℤ}
use kata_load_test.Timespec.{Timespec}
use kata_load_test.Rand.Real.{Real}
use kata_load_test.Stats.State.{
  LatencyStats, ThreadStats, AllStats, max_per_thread_samples, zero_throughput,
}
use kata_load_test.Stats.Samples.{add_latency_sample}
use kata_load_test.Stats.Sort.{Sort}
use kata_load_test.Stats.Aggregate.{aggregate_latency_samples}
use kata_load_test.Stats.Aggregate.Laws.{
  total, collected, Summed, aggregate_latency_samples-collects,
}
use kata_load_test.Manager.Wire.{Field}
use kata_load_test.Manager.Frame.{handle_report-Keeps}
use kata_load_test.Manager.{report_req, replied, manager_step}
use kata_load_test.Manager.State.{Manager, Outside, get_agent_type}
use kata_load_test.Manager.Protocol.{Reach, IsFresh, FitIn, latency_sample, record_in_thread}
use kata_load_test.Manager.Protocol.Safety.{Reach-IsReady}

total-le :
    (cap : ℕ) (all : AllStats)
    → cap ≤ max_per_thread_samples
    → FitIn cap all
    → total (λ t. t.size) all ≤ length all * max_per_thread_samples
total-le cap [] le f = omega arith
total-le cap (t ∷ all) le f = omega (arith, f.0, total-le cap all le f.1)

module _ (F : Real) (Q : Sort) where
  open F use {R}

  -- In every state that the system reaches from a fresh start, by messages that the manager answers,
  -- none of which asks for a report in front of the first START_MEASURE, and by recordings of the
  -- threads, with at most eight threads and a size of the rings that is set, for an agent type that
  -- records latencies:
  -- `aggregate_latency_samples` succeeds, the
  -- aggregate then holds all the samples of the threads, and its counters are their sums.
  pub Reach-collects :
      (s s' : Manager R)
      → IsFresh s
      → Reach F Q s s'
      → 0 < s'.per_thread_samples
      → length s'.all_stats ≤ 8
      → (out : LatencyStats) × (aggregate_latency_samples
            (get_agent_type s')
            s'.all_stats
            s'.agg_stats
          ≡ ok out)
        × (out.size ≡ total (λ t. t.size) s'.all_stats)
        × (slice out.samples 0 out.size ≡ collected s'.all_stats)
        × Summed zero_throughput s'.all_stats out.th_s
  Reach-collects s s' f r set few =
      let ready = Reach-IsReady F Q s s' f r in
      let le = total-le s'.per_thread_samples s'.all_stats ready.capped (ready.fits set) in
      aggregate_latency_samples-collects (get_agent_type s') s'.all_stats s'.agg_stats ready.real
        (omega (arith, le, few))

  -- A report of either kind that is answered before the size of the rings is set turns the measurement on: the next
  -- latency sample of a thread that the sampling does not skip divides by zero.
  pub report_req-divides :
      (o : Outside R) (payload : ℕ) (s s' : Manager R) (r : List (Field R))
      → s.per_thread_samples ≡ 0
      → manager_step F Q o (report_req payload) s ≡ ok (replied r s')
      → (diff : ℤ) (tx : Option Timespec) (t : ThreadStats)
      → record_in_thread s'.should_measure s'.per_thread_samples (latency_sample false diff tx) t
        ≡ stop divide_by_zero
  unfolding manager_step record_in_thread
  report_req-divides o payload s s' r unset e diff tx t =
      let (k, on) = handle_report-Keeps F Q o payload s s' r e in
      rw (on, k.per_thread_samples, unset) (unfold add_latency_sample in refl)
