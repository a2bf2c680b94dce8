-- ===== src/Manager/Tests.antt =====
-- A manager with two threads, from the start of a measurement to a report, with integers in the
-- place of doubles.
use kata_load_test.Base.{
  ℕ, zero, suc, ◌≡◌, ◌≢◌, refl, true, false, some, [], ◌∷◌, arith, ok, update, copy, ◌==◌,
  if◌then◌else◌,
}
use kata_load_test.Base.Int.{ℤ, pos, ◌*ℤ◌}
use kata_load_test.Timespec.{zero_timespec}
use kata_load_test.Rand.Real.{Real}
use kata_load_test.Rand.Gen.{generate, fixed}
use kata_load_test.Rand.Tests.{integers}
use kata_load_test.Stats.State.{
  no_stats, zero_sample, symmetric_agent, agent_nr, LatencyStats, ThreadStats, AllStats,
}
use kata_load_test.Stats.Samples.{clear_all_stats, set_per_thread_samples}
use kata_load_test.Stats.Interarrival.{collect_loop, reference_ia_size}
use kata_load_test.Stats.Tests.Sorted.{no_sort}
use kata_load_test.Agent.Config.{calloc_config}
use kata_load_test.Manager.Wire.{ThroughputReply, msg1, report_throughput}
use kata_load_test.Manager.State.{Manager, Outside, received}
use kata_load_test.Manager.{
  replied, start_load, manager_round, start_measure, report_req, manager_step, handle_measure,
}
use kata_load_test.Manager.Reading.{send_load, arriving, manager_round-reads}
use kata_load_test.Manager.Reply.{reply_ack}
use kata_load_test.Manager.Laws.{throughput_frames, Reports, report_throughput-Reports}

-- The factor 1.01 is 1, and the other literals are 0.
abbrev pub reals : Real
reals = record integers { literal = λ n d. if n == 101 then pos 1 else pos 0 }

abbrev pub thread_after : ℕ → ThreadStats
thread_after n = record {
  stats = record no_stats {
    th_s = record { rx = record { bytes = 5; reqs = n }; tx = record { bytes = 4; reqs = n } };
    size = n;
    samples = λ i. record { nsec = i; tx = zero_timespec };
  };
  tx_s = record { count = 0; samples = λ _. zero_timespec };
}

abbrev pub idle : Manager ℤ
idle = record {
  should_load = true;
  should_measure = false;
  start_measure_time = pos 0;
  stop_measure_time = pos 0;
  agg_stats = no_stats;
  all_stats = thread_after 9 ∷ [];
  per_thread_samples = 0;
  sampling_rate = pos 0;
  reference_ia = λ _. 0;
  collected_ia = λ _. 0;
  agent = record {
    cfg = record (calloc_config {R = ℤ}) { atype = symmetric_agent; thread_count = pos 1 };
    sin_addr = 0;
    reference_ia_gen = some (fixed (pos 2));
  };
}

abbrev pub outside : ℕ → ℕ → Outside ℤ
outside n time = record {
  header = received [];
  payload = received [];
  sampling = received [];
  written = n;
  now = pos time;
  draws = λ _. pos 0;
  unset_convergence = pos 0;
  unset_ia = pos 0;
  stack = λ _. zero_timespec;
}

-- The reference times, each 2 us.
abbrev filled : ℕ → ℕ → ℕ
filled zero = λ _. 0
filled (suc n) = update (filled n) n 2000

collect_loop-filled :
    (n : ℕ) → collect_loop reals n (fixed (pos 2)) (λ _. pos 0) (λ _. 0) ≡ ok (filled n)
unfolding collect_loop generate ◌*ℤ◌
collect_loop-filled zero = refl
collect_loop-filled (suc n) = rw (collect_loop-filled n) refl

-- The state after START_MEASURE.
abbrev pub measuring : Manager ℤ
measuring = record idle {
  should_measure = true;
  start_measure_time = pos 50;
  per_thread_samples = 8;
  reference_ia = filled reference_ia_size;
  all_stats = clear_all_stats symmetric_agent idle.all_stats;
}

pub measuring_run :
    manager_step reals no_sort (outside 12 50) (start_measure 8 (pos 0)) idle
    ≡ ok (replied (msg1 4 0) measuring)
unfolding manager_step handle_measure reply_ack set_per_thread_samples ◌*ℤ◌
measuring_run = rw (collect_loop-filled reference_ia_size) refl

symmetric_agent-ne_last : symmetric_agent ≢ agent_nr
symmetric_agent-ne_last = λ e. ground arith

abbrev pub two_busy : AllStats
two_busy = thread_after 1 ∷ thread_after 1 ∷ []

report_throughput-Reports_example :
    (d : ThroughputReply) × (s2 : Manager ℤ) × (manager_step reals no_sort
        (outside 44 90)
        (report_req report_throughput)
        (record measuring { all_stats = two_busy })
      ≡ ok (replied (throughput_frames symmetric_agent d 0) s2))
    × Reports two_busy (pos 50) (pos 90) d
    × (s2.should_measure ≡ true)
report_throughput-Reports_example =
    report_throughput-Reports reals no_sort (outside 12 50) (outside 44 90) 8 (pos 0) idle measuring
      (msg1 4 0) two_busy false (λ _. 0) (λ _. 0) symmetric_agent-ne_last measuring_run
      (λ nic. absurd (cc nic)) refl

-- The aggregate with the samples of both threads.
abbrev merged : LatencyStats
merged = record no_stats {
  th_s = record { rx = record { bytes = 10; reqs = 2 }; tx = record { bytes = 8; reqs = 2 } };
  size = 2;
  samples =
      copy (copy (λ _. zero_sample) 0 (thread_after 1).stats.samples 1) 1
        (thread_after 1).stats.samples 1;
}

manager_round-reads_example :
    manager_round reals no_sort (λ bs. pos 0) (arriving (send_load 9) 4 (outside 12 90)) idle
    ≡ manager_step reals no_sort (arriving (send_load 9) 4 (outside 12 90)) (start_load 9) idle
manager_round-reads_example =
    manager_round-reads reals no_sort (λ bs. pos 0) (outside 12 90) (send_load 9) 4 idle
      (omega arith)
