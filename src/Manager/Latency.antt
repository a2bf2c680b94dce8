-- ===== src/Manager/Latency.antt =====
-- What the coordinator gets for a report of the latencies after a measurement.
use kata_load_test.Base.{ℕ, ◌<◌, ◌^◌, Bool, ◌≡◌, List, [], ◌∷◌, ◌++◌, if◌then◌else◌, slice}
use kata_load_test.Base.Int.{ℤ}
use kata_load_test.Rand.Real.{Real}
use kata_load_test.Stats.State.{AgentType, LatencyStats, AllStats}
use kata_load_test.Stats.Sort.{Sort, IsSorting, sample_cmp_latency}
use kata_load_test.Stats.Ks.{compute_convergence}
use kata_load_test.Stats.Percentiles.Laws.{Percentiles}
use kata_load_test.Stats.Aggregate.Laws.{collected}
use kata_load_test.Manager.Wire.{
  Field, u32, u64, f64, msg1, msg2, reply_stats_latency, reply_convergence, reply_iid,
  reply_ia_comp, sizeof_throughput_reply, sizeof_size,
}
use kata_load_test.Manager.State.{Manager, Outside, is_nic}
use kata_load_test.Manager.Reply.{throughput_data, bool_as_int}
use kata_load_test.Manager.Laws.{Reports}

module _ {R : Type 0} where
  -- What the NIC agent adds to the reply, and the whole reply.
  abbrev pub extra_fields : Bool → R → ℕ → List (Field R)
  extra_fields conv corr ia =
      (msg1 sizeof_size reply_convergence ++ u32 (bool_as_int conv) ∷ [])
      ++ (msg1 sizeof_size reply_iid ++ f64 corr ∷ [])
      ++ msg2 8 reply_ia_comp ia

  -- The layout of `struct latency_reply` behind the header, field by field.
  abbrev pub latency_reply : AgentType → ℕ → LatencyStats → Bool → R → ℕ → List (Field R)
  latency_reply atype duration agg conv corr ia =
      (msg1 sizeof_throughput_reply reply_stats_latency
        ++ u64 agg.th_s.rx.bytes
          ∷ u64 agg.th_s.tx.bytes
          ∷ u64 agg.th_s.rx.reqs
          ∷ u64 duration
          ∷ u64 agg.avg_lat
          ∷ u64 agg.p50_i
          ∷ u64 agg.p50
          ∷ u64 agg.p50_k
          ∷ u64 agg.p90_i
          ∷ u64 agg.p90
          ∷ u64 agg.p90_k
          ∷ u64 agg.p95_i
          ∷ u64 agg.p95
          ∷ u64 agg.p95_k
          ∷ u64 agg.p99_i
          ∷ u64 agg.p99
          ∷ u64 agg.p99_k
          ∷ [])
      ++ (if is_nic atype then extra_fields conv corr ia else [])

module _ (F : Real) (Q : Sort) where
  open F use {R}

  -- The answer of the test of convergence, and the statistics with the samples as it leaves them.
  abbrev pub converged : Outside R → LatencyStats → Bool
  converged o agg = (compute_convergence F Q o.unset_convergence agg.samples agg.size).0

  abbrev pub after_convergence : Outside R → LatencyStats → LatencyStats
  after_convergence o agg = record agg {
    samples = (compute_convergence F Q o.unset_convergence agg.samples agg.size).1;
  }

  module _ (all : AllStats) (merged : LatencyStats)
      (sorts : IsSorting Q sample_cmp_latency merged.size merged.samples)
      (small : (i : ℕ) → i < merged.size → (merged.samples i).nsec < 2 ^ 31) where
    -- What a reply on latencies holds: all the samples of the threads, and of these the percentiles;
    -- the threads' counters; the time of the measurement.
    pub record ReportsLatency (t0 t1 : ℤ) (duration : ℕ) (agg : LatencyStats) : Type 0 where
      pub samples : slice merged.samples 0 merged.size ≡ collected all
      pub percentiles : Percentiles F Q merged sorts small agg
      pub counters : Reports all t0 t1 (throughput_data duration agg)
