-- ===== src/Manager/Laws.antt =====
-- What the coordinator gets for a report of the throughput after a measurement.
use kata_load_test.Base.{
  ℕ, Bool, Bool-cases, inl, inr, ◌≡◌, ◌≢◌, refl, ap, sym, true, false, List, [], ◌∷◌, ◌++◌, arith,
  if◌then◌else◌, wrap64, ok, >>=-eq-ok, ok-injective,
}
use kata_load_test.Base.Int.{ℤ, ◌-ℤ◌, to_u64}
use kata_load_test.Rand.Real.{Real}
use kata_load_test.Stats.State.{AgentType, agent_nr, AllStats}
use kata_load_test.Stats.Samples.{set_per_thread_samples}
use kata_load_test.Stats.Sort.{Sort}
use kata_load_test.Stats.Interarrival.{check_ia, collect_reference_ia}
use kata_load_test.Stats.Aggregate.{aggregate_throughput_stats}
use kata_load_test.Stats.Aggregate.Laws.{total, aggregate_throughput_stats-Summed}
use kata_load_test.Manager.Wire.{
  Field, u32, size, type_reply, ThroughputReply, throughput_fields, reply_stats_throughput,
  reply_ia_comp, report_throughput,
}
use kata_load_test.Manager.State.{Manager, Outside, get_agent_type, is_nic, duration_of}
use kata_load_test.Manager.Reply.{
  throughput_data, bool_as_int, reply_ack, ia_part, reply_throughput_stats,
}
use kata_load_test.Manager.{
  Turn, returned, replied, start_measure, report_req, manager_step, handle_measure, handle_report,
  samples_for,
}

module _ {R : Type 0} where
  -- A message of type REPLY whose header announces what follows it.
  abbrev pub frame : List (Field R) → List (Field R)
  frame body = u32 type_reply ∷ u32 (size body) ∷ body

  -- The reply to a report of the throughput: one message, and for the NIC agent a second one.
  abbrev pub throughput_frames : AgentType → ThroughputReply → ℕ → List (Field R)
  throughput_frames atype d ia =
      frame (u32 reply_stats_throughput ∷ throughput_fields d)
      ++ (if is_nic atype then frame (u32 reply_ia_comp ∷ u32 ia ∷ []) else [])

-- The counters of a reply are the threads' sums, and its duration is the time between.
pub record Reports (all : AllStats) (t0 t1 : ℤ) (d : ThroughputReply) : Type 0 where
  pub rx_bytes : d.rx_bytes ≡ wrap64 (total (λ s. s.th_s.rx.bytes) all)
  pub tx_bytes : d.tx_bytes ≡ wrap64 (total (λ s. s.th_s.tx.bytes) all)
  pub req_count : d.req_count ≡ wrap64 (total (λ s. s.th_s.rx.reqs) all)
  pub duration : d.duration ≡ to_u64 (t1 -ℤ t0)

-- The state in which a report is answered, if the measurement was on.
abbrev pub at_report : {R : Type 0} → Outside R → Manager R → AllStats → Manager R
at_report o s all = record s { should_measure = false; stop_measure_time = o.now; all_stats = all }

-- The state behind a reply.
abbrev pub next_state : {R : Type 0} → Manager R → Turn R → Manager R
next_state s (returned n) = s
next_state s (replied r s') = s'

module _ (F : Real) (Q : Sort) where
  open F use {R}

  abbrev aggregated : Manager R → Manager R
  aggregated s = record s {
    agg_stats = aggregate_throughput_stats (get_agent_type s) s.all_stats s.agg_stats;
  }

  sent_fields : Manager R → ThroughputReply
  sent_fields s =
      throughput_data (duration_of s)
        (aggregate_throughput_stats (get_agent_type s) s.all_stats s.agg_stats)

  module _ (o : Outside R) (answer : Bool) (reference_ia collected_ia : ℕ → ℕ) where
    -- If it is asked for, `check_ia` gives this answer, with these arrays afterwards.
    abbrev pub Answers : Manager R → Type 0
    Answers s =
        is_nic (get_agent_type s) ≡ true
        → check_ia F Q o.unset_ia o.stack s.all_stats s.reference_ia s.collected_ia
          ≡ ok (answer, reference_ia, collected_ia)

    pub ia_part-answer :
        (s : Manager R)
        → check_ia F Q o.unset_ia o.stack s.all_stats s.reference_ia s.collected_ia
          ≡ ok (answer, reference_ia, collected_ia)
        → ia_part F Q o s
          ≡ ok (
            frame (u32 reply_ia_comp ∷ u32 (bool_as_int answer) ∷ []),
            record s { reference_ia = reference_ia; collected_ia = collected_ia },
          )
    unfolding ia_part
    ia_part-answer s e = rw e

    reply_throughput_stats-frames :
        (s : Manager R)
        → Answers s
        → o.written ≡ (if is_nic (get_agent_type s) then 60 else 44)
        → (s' : Manager R) × (reply_throughput_stats F Q o s
            ≡ ok (throughput_frames (get_agent_type s) (sent_fields s) (bool_as_int answer), s'))
    unfolding reply_throughput_stats sent_fields
    reply_throughput_stats-frames s answers e = elim (Bool-cases (is_nic (get_agent_type s))) [
      | inl nic ↦
          let a = ia_part-answer (aggregated s) (answers nic) in
          (
            record (aggregated s) { reference_ia = reference_ia; collected_ia = collected_ia },
            ground (arith, nic, a),
          )
      | inr plain ↦ (aggregated s, ground (arith, plain))
    ]

  pub started :
      (o : Outside R) (payload : ℕ) (sampling : R) (s s' : Manager R) (r : List (Field R))
      → manager_step F Q o (start_measure payload sampling) s ≡ ok (replied r s')
      → (s'.should_measure ≡ true) × (s'.start_measure_time ≡ o.now) × (s'.agent ≡ s.agent)
  unfolding manager_step handle_measure
  started o payload sampling s s' r e =
      let (per, _, e1) = >>=-eq-ok (set_per_thread_samples (samples_for F payload s)) _ e in
      let (reply, _, e2) = >>=-eq-ok (reply_ack o.written) _ e1 in
      let (ref, _, e3) =
        >>=-eq-ok (collect_reference_ia F s.agent.reference_ia_gen o.draws s.reference_ia) _ e2 in
      let same = ap (next_state s) (ok-injective _ (replied r s') e3) in
      (
        sym (ap (λ x. x.should_measure) same),
        sym (ap (λ x. x.start_measure_time) same),
        sym (ap (λ x. x.agent) same),
      )

  reported :
      (o : Outside R) (s s' : Manager R) (all : AllStats) (reply : List (Field R))
      → s.should_measure ≡ true
      → reply_throughput_stats F Q o (at_report o s all) ≡ ok (reply, s')
      → manager_step F Q o (report_req report_throughput) (record s { all_stats = all })
        ≡ ok (replied reply (record s' { should_measure = true }))
  unfolding manager_step handle_report
  reported o s s' all reply on e = rw on (rw e)

  -- After START_MEASURE was taken, whatever the threads then record, a report of the
  -- throughput, sent whole, if the test of the interarrival times gives an answer where the NIC agent asks for it: for the four agent types the reply consists of messages
  -- whose headers announce exactly what follows them, it holds the sums of the threads' counters as
  -- uint64_t, the time since START_MEASURE, and for the NIC agent that answer, and the measurement goes on.
  pub report_throughput-Reports :
      (o0 o1 : Outside R) (payload : ℕ) (sampling : R) (s s1 : Manager R) (r : List (Field R))
      (all : AllStats) (answer : Bool) (reference_ia collected_ia : ℕ → ℕ)
      → get_agent_type s ≢ agent_nr
      → manager_step F Q o0 (start_measure payload sampling) s ≡ ok (replied r s1)
      → Answers o1 answer reference_ia collected_ia (record s1 { all_stats = all })
      → o1.written ≡ (if is_nic (get_agent_type s) then 60 else 44)
      → (d : ThroughputReply) × (s2 : Manager R) × (manager_step F Q o1
            (report_req report_throughput)
            (record s1 { all_stats = all })
          ≡ ok (replied (throughput_frames (get_agent_type s) d (bool_as_int answer)) s2))
        × Reports all o0.now o1.now d
        × (s2.should_measure ≡ true)
  report_throughput-Reports o0 o1 payload sampling s s1 r all answer ref col real e answers sent =
      let (on, since, agent) = started o0 payload sampling s s1 r e in
      let same : get_agent_type s1 ≡ get_agent_type s = ap (λ a. a.cfg.atype) agent in
      let sums =
        aggregate_throughput_stats-Summed (get_agent_type s1) all s1.agg_stats (rw same real) in
      let (s2, frames) =
        reply_throughput_stats-frames o1 answer ref col (at_report o1 s1 all) answers
          (rw same sent) in
      (
        sent_fields (at_report o1 s1 all),
        record s2 { should_measure = true },
        rw (← same) (reported o1 s1 s2 all _ on frames),
        record {
          rx_bytes = unfold sent_fields in omega (arith, sums.rx_bytes);
          tx_bytes = unfold sent_fields in omega (arith, sums.tx_bytes);
          req_count = unfold sent_fields in omega (arith, sums.rx_reqs);
          duration = unfold sent_fields in ap (λ t. to_u64 (o1.now -ℤ t)) since;
        },
        refl,
      )
