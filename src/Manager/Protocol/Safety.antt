-- ===== src/Manager/Protocol/Safety.antt =====
-- The invariant of the manager and the threads.
use kata_load_test.Base.{
  ℕ, ◌≤◌, ◌<◌, ◌≡◌, ◌≢◌, refl, ap, subst, Bool, inl, inr, true, List, [], ◌∷◌, ◌++◌, ok, >>=-eq-ok,
  ok-injective, Outcome-cases, arith,
}
use kata_load_test.Rand.Real.{Real}
use kata_load_test.Stats.State.{
  AgentType, throughput_agent, agent_nr, ThreadStats, AllStats, max_per_thread_samples,
}
use kata_load_test.Stats.Samples.{clear_all_stats, set_per_thread_samples, add_latency_sample}
use kata_load_test.Stats.Sort.{Sort}
use kata_load_test.Stats.Interarrival.{collect_reference_ia}
use kata_load_test.Agent.Load.{set_load}
use kata_load_test.Agent.Load.Laws.{set_load-atype}
use kata_load_test.Manager.Wire.{Field}
use kata_load_test.Manager.Reply.{reply_ack}
use kata_load_test.Manager.Laws.{next_state}
use kata_load_test.Manager.Frame.{handle_report-Keeps}
use kata_load_test.Manager.{
  Message, start_load, start_measure, report_req, unknown_message, replied, samples_for,
  handle_load, handle_measure, handle_report, manager_step,
}
use kata_load_test.Manager.State.{Manager, Outside, get_agent_type}
use kata_load_test.Manager.Protocol.{
  Recording, tx_sample, rx_sample, tx_timestamp, latency_sample, record_in_thread, Step, answer,
  thread, Reach, here, next, IsExpected, IsFresh, FitIn, IsReady,
}

-- A recording that is made leaves the samples in the ring.
recorded-le :
    (measure : Bool) (cap : ℕ) (a : Recording) (t t' : ThreadStats)
    → t.stats.size ≤ cap
    → record_in_thread measure cap a t ≡ ok t'
    → t'.stats.size ≤ cap
unfolding record_in_thread
recorded-le measure cap (tx_sample p) t t' h e = ground arith
recorded-le measure cap (rx_sample p) t t' h e = ground arith
recorded-le measure cap (tx_timestamp ts) t t' h e = ground arith
recorded-le measure cap (latency_sample skip diff tx) t t' h e = ground arith

-- A recording is made if a measurement has a ring to write to.
pub recording :
    (measure : Bool) (cap : ℕ) (a : Recording) (t : ThreadStats)
    → (measure ≡ true → 0 < cap)
    → (t' : ThreadStats) × (record_in_thread measure cap a t ≡ ok t')
unfolding record_in_thread
recording measure cap (tx_sample p) t h = (_, refl)
recording measure cap (rx_sample p) t h = (_, refl)
recording measure cap (tx_timestamp ts) t h = (_, refl)
recording measure cap (latency_sample skip diff tx) t h =
    elim (Outcome-cases (add_latency_sample measure skip cap diff tx t.stats)) [
      | inl (stats, e) ↦ (record t { stats = stats }, rw e refl)
      | inr (why, e) ↦ absurd (unfold add_latency_sample in ground (arith, e, h))
    ]

cleared-le :
    (atype : AgentType) (cap : ℕ) (all : AllStats)
    → atype ≢ throughput_agent
    → atype ≢ agent_nr
    → FitIn cap (clear_all_stats atype all)
unfolding clear_all_stats
cleared-le atype cap [] h k = tt
cleared-le atype cap (t ∷ all) h k = (ground arith, cleared-le atype cap all h k)

FitIn-replace :
    (cap : ℕ) (before after : List ThreadStats) (t t' : ThreadStats)
    → (t.stats.size ≤ cap → t'.stats.size ≤ cap)
    → FitIn cap (before ++ t ∷ after)
    → FitIn cap (before ++ t' ∷ after)
FitIn-replace cap [] after t t' k f = (k f.0, f.1)
FitIn-replace cap (x ∷ before) after t t' k f = (f.0, FitIn-replace cap before after t t' k f.1)

per_thread-bounds :
    (n per : ℕ) → set_per_thread_samples n ≡ ok per → (0 < per) × (per ≤ max_per_thread_samples)
unfolding set_per_thread_samples
per_thread-bounds n per e = ground (arith, e)

module _ (F : Real) (Q : Sort) where
  open F use {R}

  handle_load-IsReady :
      (o : Outside R) (payload : ℕ) (s s' : Manager R) (r : List (Field R))
      → IsReady s
      → handle_load F Q o payload s ≡ ok (replied r s')
      → IsReady s'
  unfolding handle_load
  handle_load-IsReady o payload s s' r h e =
      let (agent, loaded, e1) = >>=-eq-ok (set_load F payload s.agent) _ e in
      let (reply, _, e2) = >>=-eq-ok (reply_ack o.written) _ e1 in
      let same = ap (next_state s) (ok-injective _ (replied r s') e2) in
      let kind = set_load-atype F payload s.agent agent loaded in
      subst IsReady same (record {
        capped = h.capped;
        measuring = λ on. absurd (cc on);
        fits = λ set.
            cleared-le (get_agent_type s) s.per_thread_samples s.all_stats h.not_throughput h.real;
        not_throughput = rw kind h.not_throughput;
        real = rw kind h.real;
      })

  handle_measure-IsReady :
      (o : Outside R) (payload : ℕ) (sampling : R) (s s' : Manager R) (r : List (Field R))
      → IsReady s
      → handle_measure F Q o payload sampling s ≡ ok (replied r s')
      → IsReady s'
  unfolding handle_measure
  handle_measure-IsReady o payload sampling s s' r h e =
      let (per, set, e1) = >>=-eq-ok (set_per_thread_samples (samples_for F payload s)) _ e in
      let (reply, _, e2) = >>=-eq-ok (reply_ack o.written) _ e1 in
      let (ref, _, e3) =
        >>=-eq-ok (collect_reference_ia F s.agent.reference_ia_gen o.draws s.reference_ia) _ e2 in
      let same = ap (next_state s) (ok-injective _ (replied r s') e3) in
      let (pos, le) = per_thread-bounds (samples_for F payload s) per set in
      subst IsReady same (record {
        capped = le;
        measuring = λ on. pos;
        fits = λ set. cleared-le (get_agent_type s) per s.all_stats h.not_throughput h.real;
        not_throughput = h.not_throughput;
        real = h.real;
      })

  handle_report-IsReady :
      (o : Outside R) (payload : ℕ) (s s' : Manager R) (r : List (Field R))
      → IsReady s
      → 0 < s.per_thread_samples
      → handle_report F Q o payload s ≡ ok (replied r s')
      → IsReady s'
  handle_report-IsReady o payload s s' r h set e =
      let (all, on) = handle_report-Keeps F Q o payload s s' r e in
      record {
        capped = rw all.per_thread_samples h.capped;
        measuring = λ on. rw all.per_thread_samples set;
        fits = rw (all.per_thread_samples, all.all_stats) h.fits;
        not_throughput = rw all.agent h.not_throughput;
        real = rw all.agent h.real;
      }

  manager_step-IsReady :
      (o : Outside R) (m : Message R) (s s' : Manager R) (r : List (Field R))
      → IsReady s
      → IsExpected m s
      → manager_step F Q o m s ≡ ok (replied r s')
      → IsReady s'
  unfolding manager_step
  manager_step-IsReady o (start_load payload) s s' r h x e =
      handle_load-IsReady o payload s s' r h e
  manager_step-IsReady o (start_measure payload sampling) s s' r h x e =
      handle_measure-IsReady o payload sampling s s' r h e
  manager_step-IsReady o (report_req payload) s s' r h x e =
      handle_report-IsReady o payload s s' r h x e
  manager_step-IsReady o unknown_message s s' r h x e = absurd (cc e)

  Step-IsReady : (s s' : Manager R) → Step F Q s s' → IsReady s → IsReady s'
  Step-IsReady s s' (answer o m reply x e) h = manager_step-IsReady o m s s' reply h x e
  Step-IsReady s s' (thread before after t t' a held e same) h = rw same (record {
    capped = h.capped;
    measuring = h.measuring;
    fits = λ set.
        FitIn-replace s.per_thread_samples before after t t'
          (λ le. recorded-le s.should_measure s.per_thread_samples a t t' le e)
          (rw (← held) (h.fits set));
    not_throughput = h.not_throughput;
    real = h.real;
  })

  IsFresh-IsReady : (s : Manager R) → IsFresh s → IsReady s
  IsFresh-IsReady s f = record {
    capped = omega (arith, f.unset);
    measuring = λ on. absurd (ground (arith, f.idle));
    fits = λ set. absurd (omega (arith, f.unset));
    not_throughput = f.not_throughput;
    real = f.real;
  }

  pub Reach-IsReady : (s s' : Manager R) → IsFresh s → Reach F Q s s' → IsReady s'
  Reach-IsReady s s' f here = IsFresh-IsReady s f
  Reach-IsReady s s' f (next {t = t} {u = u} r st) = Step-IsReady t u st (Reach-IsReady s t f r)

  -- In every state that the system reaches from a fresh start, by messages that the manager
  -- answers, none of which asks for a report in front of the first START_MEASURE, and by recordings
  -- of the threads, in any order, for an agent type that records latencies: the size of the rings is
  -- at most the limit, and positive when the threads measure; once it is set, no thread has more
  -- samples in use than that; and each recording that a thread can make is made, so that none
  -- divides by zero.
  pub Reach-records :
      (s s' : Manager R)
      → IsFresh s
      → Reach F Q s s'
      → IsReady s'
        × ((a : Recording) (t : ThreadStats)
            → (t' : ThreadStats) × (record_in_thread s'.should_measure s'.per_thread_samples a t
                ≡ ok t'))
  Reach-records s s' f r =
      let ready = Reach-IsReady s s' f r in
      (ready, λ a t. recording s'.should_measure s'.per_thread_samples a t ready.measuring)
