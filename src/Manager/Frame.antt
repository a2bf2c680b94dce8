-- ===== src/Manager/Frame.antt =====
-- What the replies leave as it is: the threads' statistics, the size of the sample rings, and the
-- configuration.
use kata_load_test.Base.{
  ℕ, ◌≡◌, refl, ap, sym, ◌∙◌, Bool, true, false, if◌then◌else◌, Bool-cases, inl, inr, List, [],
  Outcome, ok, ◌>>=◌, >>=-eq-ok, ok-injective, arith, ◌==◌,
}
use kata_load_test.Rand.Real.{Real}
use kata_load_test.Stats.Sort.{Sort}
use kata_load_test.Stats.Ks.{compute_convergence}
use kata_load_test.Stats.Independence.{check_iid}
use kata_load_test.Stats.Interarrival.{check_ia}
use kata_load_test.Stats.Aggregate.{aggregate_throughput_stats}
use kata_load_test.Manager.Wire.{Field, report_throughput, report_latency}
use kata_load_test.Manager.State.{Manager, Outside, is_nic, get_agent_type}
use kata_load_test.Manager.Reply.{
  ia_part, reply_throughput_stats, collect_latency_stats, latency_extra, reply_latency_stats,
}
use kata_load_test.Manager.Laws.{next_state}
use kata_load_test.Manager.{replied, stop_measuring, resume, handle_report}

pub record Keeps {R : Type 0} (s s' : Manager R) : Type 0 where
  pub all_stats : s'.all_stats ≡ s.all_stats
  pub per_thread_samples : s'.per_thread_samples ≡ s.per_thread_samples
  pub agent : s'.agent ≡ s.agent

module _ {R : Type 0} where
  abbrev and_send :
      (List (Field R) → Outcome (List (Field R)))
      → List (Field R) × Manager R
      → Outcome (List (Field R) × Manager R)
  and_send k (rest, s) = k rest >>= λ reply. ok (reply, s)

  Keeps-trans : (s t u : Manager R) → Keeps s t → Keeps t u → Keeps s u
  Keeps-trans s t u k l = record {
    all_stats = l.all_stats ∙ k.all_stats;
    per_thread_samples = l.per_thread_samples ∙ k.per_thread_samples;
    agent = l.agent ∙ k.agent;
  }

  -- The second part, which the NIC agent adds.
  if_nic :
      (nic : Bool) (m : Outcome (List (Field R) × Manager R)) (s s' : Manager R)
      (r : List (Field R))
      → ((rest : List (Field R)) (s2 : Manager R) → m ≡ ok (rest, s2) → Keeps s s2)
      → (if nic then m else ok ([], s)) ≡ ok (r, s')
      → Keeps s s'
  if_nic true m s s' r keeps e = keeps r s' e
  if_nic false m s s' r keeps e =
      let same : s ≡ s' = ap (λ p. p.1) (ok-injective ([], s) (r, s') e) in
      rw (← same) (record { all_stats = refl; per_thread_samples = refl; agent = refl })

  -- A reply that is put together in two parts and sent.
  sent_reply :
      (m : Outcome (List (Field R) × Manager R)) (k : List (Field R) → Outcome (List (Field R)))
      (s s' : Manager R) (r : List (Field R))
      → ((rest : List (Field R)) (s2 : Manager R) → m ≡ ok (rest, s2) → Keeps s s2)
      → (m >>= and_send k) ≡ ok (r, s')
      → Keeps s s'
  sent_reply m k s s' r keeps e =
      let (x, e0, e1) = >>=-eq-ok m _ e in
      let (reply, _, e2) = >>=-eq-ok (k x.0) _ e1 in
      let same : x.1 ≡ s' = ap (λ p. p.1) (ok-injective (reply, x.1) (r, s') e2) in
      rw (← same) (keeps x.0 x.1 e0)

module _ (F : Real) (Q : Sort) (o : Outside F.R) where
  open F use {R}

  ia_part-Keeps :
      (s s' : Manager R) (r : List (Field R)) → ia_part F Q o s ≡ ok (r, s') → Keeps s s'
  unfolding ia_part
  ia_part-Keeps s s' r e =
      let (x, _, e1) =
        >>=-eq-ok (check_ia F Q o.unset_ia o.stack s.all_stats s.reference_ia s.collected_ia) _ e in
      let same = ap (λ p. p.1) (ok-injective _ (r, s') e1) in
      record {
        all_stats = sym (ap (λ t. t.all_stats) same);
        per_thread_samples = sym (ap (λ t. t.per_thread_samples) same);
        agent = sym (ap (λ t. t.agent) same);
      }

  latency_extra-Keeps :
      (conv : Bool) (s s' : Manager R) (r : List (Field R))
      → latency_extra F Q o conv s ≡ ok (r, s')
      → Keeps s s'
  unfolding latency_extra
  latency_extra-Keeps conv s s' r e =
      let (x, _, e1) = >>=-eq-ok (check_iid F Q s.agg_stats) _ e in
      let s1 : Manager R = record s { agg_stats = record s.agg_stats { samples = x.1 } } in
      let (y, ia, e2) = >>=-eq-ok (ia_part F Q o s1) _ e1 in
      let same = ap (λ p. p.1) (ok-injective _ (r, s') e2) in
      let k = ia_part-Keeps s1 y.1 y.0 ia in
      rw (← same) (record {
        all_stats = k.all_stats;
        per_thread_samples = k.per_thread_samples;
        agent = k.agent;
      })

  reply_throughput_stats-Keeps :
      (s s' : Manager R) (r : List (Field R))
      → reply_throughput_stats F Q o s ≡ ok (r, s')
      → Keeps s s'
  unfolding reply_throughput_stats
  reply_throughput_stats-Keeps s s' r e =
      let s1 : Manager R = record s {
        agg_stats = aggregate_throughput_stats (get_agent_type s) s.all_stats s.agg_stats;
      } in
      sent_reply (if is_nic (get_agent_type s) then ia_part F Q o s1 else ok ([], s1)) _ s s' r
        (λ rest s2 e2.
          Keeps-trans s s1 s2 (record { all_stats = refl; per_thread_samples = refl; agent = refl })
            (if_nic (is_nic (get_agent_type s)) (ia_part F Q o s1) s1 s2 rest
              (λ r3 s3. ia_part-Keeps s1 s3 r3) e2))
        e

  reply_latency_stats-Keeps :
      (s s' : Manager R) (r : List (Field R))
      → reply_latency_stats F Q o s ≡ ok (r, s')
      → Keeps s s'
  unfolding reply_latency_stats
  reply_latency_stats-Keeps s s' r e =
      let (agg, _, e1) = >>=-eq-ok (collect_latency_stats F Q s) _ e in
      let (conv, samples) = compute_convergence F Q o.unset_convergence agg.samples agg.size in
      let s1 : Manager R = record s { agg_stats = record agg { samples = samples } } in
      sent_reply (if is_nic (get_agent_type s) then latency_extra F Q o conv s1 else ok ([], s1)) _
        s s' r
        (λ rest s2 e2.
          Keeps-trans s s1 s2 (record { all_stats = refl; per_thread_samples = refl; agent = refl })
            (if_nic (is_nic (get_agent_type s)) (latency_extra F Q o conv s1) s1 s2 rest
              (λ r3 s3. latency_extra-Keeps conv s1 s3 r3) e2))
        e1

  -- A report that is answered turns the measurement on.
  resumed :
      (m : Outcome (List (Field R) × Manager R)) (s s' : Manager R) (r : List (Field R))
      → ((reply : List (Field R)) (s2 : Manager R)
          → m ≡ ok (reply, s2)
          → Keeps (stop_measuring F Q o.now s) s2)
      → (m >>= resume F Q) ≡ ok (replied r s')
      → Keeps s s' × (s'.should_measure ≡ true)
  resumed m s s' r keeps e =
      let (x, e0, e1) = >>=-eq-ok m _ e in
      let same = ap (next_state s) (ok-injective _ (replied r s') e1) in
      let stopped : Keeps s (stop_measuring F Q o.now s) = record {
        all_stats = ground arith;
        per_thread_samples = ground arith;
        agent = ground arith;
      } in
      let k = Keeps-trans s (stop_measuring F Q o.now s) x.1 stopped (keeps x.0 x.1 e0) in
      (
        rw (← same) (record {
          all_stats = k.all_stats;
          per_thread_samples = k.per_thread_samples;
          agent = k.agent;
        }),
        sym (ap (λ t. t.should_measure) same),
      )

  pub handle_report-Keeps :
      (payload : ℕ) (s s' : Manager R) (r : List (Field R))
      → handle_report F Q o payload s ≡ ok (replied r s')
      → Keeps s s' × (s'.should_measure ≡ true)
  unfolding handle_report
  handle_report-Keeps payload s s' r e =
      let stopped = stop_measuring F Q o.now s in
      elim (Bool-cases (payload == report_throughput)) [
        | inl th ↦
            let e' = rw th at e in
            resumed (reply_throughput_stats F Q o stopped) s s' r
              (λ reply s2. reply_throughput_stats-Keeps stopped s2 reply) e'
        | inr other ↦ elim (Bool-cases (payload == report_latency)) [
          | inl lt ↦
              let e' = rw (other, lt) at e in
              resumed (reply_latency_stats F Q o stopped) s s' r
                (λ reply s2. reply_latency_stats-Keeps stopped s2 reply) e'
          | inr neither ↦ let e' = rw (other, neither) at e in absurd (cc e')
        ]
      ]
