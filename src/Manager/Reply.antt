-- ===== src/Manager/Reply.antt =====
-- The replies of lancet/agents/manager.c, with the statistics that they hold.
use kata_load_test.Base.{
  ℕ, ◌+◌, Bool, List, [], ◌∷◌, ◌++◌, if◌then◌else◌, ◌==◌, Outcome, ok, ◌>>=◌, ◌>>◌, assert,
}
use kata_load_test.Rand.Real.{Real}
use kata_load_test.Stats.State.{LatencyStats}
use kata_load_test.Stats.Sort.{Sort}
use kata_load_test.Stats.Aggregate.{aggregate_throughput_stats, aggregate_latency_samples}
use kata_load_test.Stats.Percentiles.{compute_latency_percentiles_ci}
use kata_load_test.Stats.Ks.{compute_convergence}
use kata_load_test.Stats.Independence.{check_iid}
use kata_load_test.Stats.Interarrival.{check_ia}
use kata_load_test.Manager.Wire.{
  Field, u32, u64, f64, size, msg1, msg2, ThroughputReply, throughput_fields,
  sizeof_throughput_reply, sizeof_u32, sizeof_size, reply_ack_info, reply_stats_throughput,
  reply_stats_latency, reply_convergence, reply_ia_comp, reply_iid,
}
use kata_load_test.Manager.State.{Manager, Outside, is_nic, get_agent_type, duration_of}

-- The counters of the aggregate, as both replies hold them.
abbrev pub throughput_data : ℕ → LatencyStats → ThroughputReply
throughput_data duration agg = record {
  rx_bytes = agg.th_s.rx.bytes;
  tx_bytes = agg.th_s.tx.bytes;
  req_count = agg.th_s.rx.reqs;
  duration = duration;
}

-- A Boolean as an int.
abbrev pub bool_as_int : Bool → ℕ
bool_as_int b = if b then 1 else 0

module _ {R : Type 0} where
  -- `written` is what writev returns.
  abbrev pub send_reply : ℕ → List (Field R) → Outcome (List (Field R))
  send_reply written reply = do assert (written == size reply); ok reply

  -- `struct latency_reply`
  abbrev pub latency_fields : ℕ → LatencyStats → List (Field R)
  latency_fields duration agg =
      throughput_fields (throughput_data duration agg)
      ++ u64 agg.avg_lat
        ∷ u64 agg.p50_i
        ∷ u64 agg.p50
        ∷ u64 agg.p50_k
        ∷ u64 agg.p90_i
        ∷ u64 agg.p90
        ∷ u64 agg.p90_k
        ∷ u64 agg.p95_i
        ∷ u64 agg.p95
        ∷ u64 agg.p95_k
        ∷ u64 agg.p99_i
        ∷ u64 agg.p99
        ∷ u64 agg.p99_k
        ∷ []

  unfoldable pub reply_ack : ℕ → Outcome (List (Field R))
  reply_ack written = send_reply written (msg1 sizeof_u32 reply_ack_info)

module _ (F : Real) (Q : Sort) where
  open F use {R}

  -- The message with the answer of `check_ia`.
  unfoldable pub ia_part : Outside R → Manager R → Outcome (List (Field R) × Manager R)
  ia_part o s = do
    (answer, reference_ia, collected_ia) ←
        check_ia F Q o.unset_ia o.stack s.all_stats s.reference_ia s.collected_ia
    ok (
      msg2 (sizeof_u32 + sizeof_u32) reply_ia_comp (bool_as_int answer),
      record s { reference_ia = reference_ia; collected_ia = collected_ia },
    )

  unfoldable pub reply_throughput_stats :
      Outside R → Manager R → Outcome (List (Field R) × Manager R)
  reply_throughput_stats o s = do
    let agg = aggregate_throughput_stats (get_agent_type s) s.all_stats s.agg_stats
    let first =
        msg1 (sizeof_throughput_reply + sizeof_u32) reply_stats_throughput
        ++ throughput_fields (throughput_data (duration_of s) agg)
    let s1 = record s { agg_stats = agg }
    (rest, s2) ← if is_nic (get_agent_type s) then ia_part o s1 else ok ([], s1)
    reply ← send_reply o.written (first ++ rest)
    ok (reply, s2)

  unfoldable pub collect_latency_stats : Manager R → Outcome LatencyStats
  collect_latency_stats s =
      aggregate_latency_samples (get_agent_type s) s.all_stats s.agg_stats
      >>= compute_latency_percentiles_ci F Q

  -- What the NIC agent adds: the answer `conv` on convergence, the correlation, the answer of
  -- `check_ia`.
  unfoldable pub latency_extra : Outside R → Bool → Manager R → Outcome (List (Field R) × Manager R)
  latency_extra o conv s = do
    (pearson_corr, samples) ← check_iid F Q s.agg_stats
    (ia, s') ← ia_part o (record s { agg_stats = record s.agg_stats { samples = samples } })
    ok (
      (msg1 sizeof_size reply_convergence ++ u32 (bool_as_int conv) ∷ [])
          ++ (msg1 sizeof_size reply_iid ++ f64 pearson_corr ∷ [])
          ++ ia,
      s',
    )

  unfoldable pub reply_latency_stats : Outside R → Manager R → Outcome (List (Field R) × Manager R)
  reply_latency_stats o s = do
    agg ← collect_latency_stats s
    let first =
        msg1 sizeof_throughput_reply reply_stats_latency ++ latency_fields (duration_of s) agg
    let (conv, samples) = compute_convergence F Q o.unset_convergence agg.samples agg.size
    let s1 = record s { agg_stats = record agg { samples = samples } }
    (rest, s2) ← if is_nic (get_agent_type s) then latency_extra o conv s1 else ok ([], s1)
    reply ← send_reply o.written (first ++ rest)
    ok (reply, s2)
