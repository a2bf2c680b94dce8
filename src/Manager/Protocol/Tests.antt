-- ===== src/Manager/Protocol/Tests.antt =====
-- A run of the manager and one thread: a measurement starts, and the thread records a latency.
use kata_load_test.Base.{
  ◌≡◌, refl, arith, true, false, none, [], ◌∷◌, ok, stop, divide_by_zero, slice, update,
}
use kata_load_test.Base.Int.{ℤ, pos}
use kata_load_test.Timespec.{zero_timespec}
use kata_load_test.Stats.State.{symmetric_agent, LatencyStats, ThreadStats, zero_throughput}
use kata_load_test.Stats.Samples.{clear_all_stats, clear_thread, clear_stats, add_latency_sample}
use kata_load_test.Stats.Aggregate.{aggregate_latency_samples, aggregate_throughput_stats}
use kata_load_test.Stats.Aggregate.Laws.{total, collected, Summed}
use kata_load_test.Stats.Tests.Sorted.{no_sort}
use kata_load_test.Manager.Wire.{report_throughput}
use kata_load_test.Manager.State.{Manager, duration_of}
use kata_load_test.Manager.{start_measure, report_req, replied, manager_step, handle_report}
use kata_load_test.Manager.Reply.{reply_throughput_stats, throughput_data}
use kata_load_test.Manager.Laws.{throughput_frames}
use kata_load_test.Manager.Tests.{reals, thread_after, idle, outside, measuring, measuring_run}
use kata_load_test.Manager.Protocol.{
  Recording, latency_sample, record_in_thread, Reach, here, next, answer, thread, IsFresh, IsReady,
}
use kata_load_test.Manager.Protocol.Safety.{Reach-records}
use kata_load_test.Manager.Protocol.Collecting.{Reach-collects, report_req-divides}

abbrev cleared : ThreadStats
cleared = clear_thread symmetric_agent (thread_after 9)

-- The first latency goes to the first slot.
abbrev recorded : ThreadStats
recorded = record cleared {
  stats = record cleared.stats {
    count = 1;
    size = 1;
    samples = update cleared.stats.samples 0 (record { nsec = 5; tx = zero_timespec });
  };
}

abbrev after_one : Manager ℤ
after_one = record measuring { all_stats = recorded ∷ [] }

idle-IsFresh : IsFresh idle
idle-IsFresh = record { idle = refl; unset = refl; not_throughput = λ e. cc e; real = λ e. cc e }

one_recorded : Reach reals no_sort idle after_one
unfolding record_in_thread clear_all_stats clear_thread clear_stats add_latency_sample
one_recorded =
    next (next here (answer (outside 12 50) (start_measure 8 (pos 0)) _ tt measuring_run))
      (thread [] [] cleared recorded (latency_sample false (pos 5) none) refl refl refl)

Reach-records_example :
    IsReady after_one
    × ((a : Recording) (t : ThreadStats)
        → (t' : ThreadStats) × (record_in_thread true 8 a t ≡ ok t'))
Reach-records_example = Reach-records reals no_sort idle after_one idle-IsFresh one_recorded

Reach-collects_example :
    (out : LatencyStats) × (aggregate_latency_samples symmetric_agent
        (recorded ∷ [])
        after_one.agg_stats
      ≡ ok out)
    × (out.size ≡ total (λ t. t.size) (recorded ∷ []))
    × (slice out.samples 0 out.size ≡ collected (recorded ∷ []))
    × Summed zero_throughput (recorded ∷ []) out.th_s
Reach-collects_example =
    Reach-collects reals no_sort idle after_one idle-IsFresh one_recorded (omega arith)
      (omega arith)

-- A report in front of the first measurement.
abbrev reported : Manager ℤ
reported = record idle {
  should_measure = true;
  agg_stats = aggregate_throughput_stats symmetric_agent idle.all_stats idle.agg_stats;
}

reported_run :
    manager_step reals no_sort (outside 44 90) (report_req report_throughput) idle
    ≡ ok (
        replied
          (throughput_frames symmetric_agent
            (throughput_data (duration_of idle) reported.agg_stats)
            0)
          reported)
unfolding manager_step handle_report reply_throughput_stats
reported_run = refl

report_req-divides_example :
    record_in_thread true 0 (latency_sample false (pos 5) none) (thread_after 1)
    ≡ stop divide_by_zero
report_req-divides_example =
    report_req-divides reals no_sort (outside 44 90) report_throughput idle reported _ refl
      reported_run (pos 5) none (thread_after 1)
