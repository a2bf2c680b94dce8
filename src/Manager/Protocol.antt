-- ===== src/Manager/Protocol.antt =====
-- The manager and the agent threads as one system: the manager handles the coordinator's messages,
-- and between these each thread records what it sent and received.
pub mod Safety
pub mod Collecting
mod Tests
use kata_load_test.Base.{
  ℕ, ◌≤◌, ◌<◌, ◌≡◌, ◌≢◌, Bool, true, false, Option, List, [], ◌∷◌, ◌++◌, Outcome, ok, ◌>>=◌, All,
}
use kata_load_test.Base.Int.{ℤ}
use kata_load_test.Timespec.{Timespec}
use kata_load_test.Rand.Real.{Real}
use kata_load_test.Stats.State.{
  throughput_agent, agent_nr, ByteReqPair, LatencyStats, ThreadStats, max_per_thread_samples,
}
use kata_load_test.Stats.Samples.{
  add_throughput_tx_sample, add_throughput_rx_sample, add_tx_timestamp, add_latency_sample,
}
use kata_load_test.Stats.Sort.{Sort}
use kata_load_test.Manager.Wire.{Field}
use kata_load_test.Manager.State.{Manager, Outside, get_agent_type}
use kata_load_test.Manager.{
  Message, start_load, start_measure, report_req, unknown_message, Turn, replied, manager_step,
}

-- A call by which a thread records something; for a latency, whether the sampling skips it.
pub data Recording : Type 0 where
  tx_sample : ByteReqPair → Recording
  rx_sample : ByteReqPair → Recording
  tx_timestamp : Timespec → Recording
  latency_sample : Bool → ℤ → Option Timespec → Recording

-- The call, with what `should_measure()` answers and with `per_thread_samples`.
unfoldable pub record_in_thread : Bool → ℕ → Recording → ThreadStats → Outcome ThreadStats
unfolding add_throughput_tx_sample add_throughput_rx_sample add_latency_sample
record_in_thread measure cap (tx_sample p) t =
    ok (record t { stats = add_throughput_tx_sample measure p t.stats })
record_in_thread measure cap (rx_sample p) t =
    ok (record t { stats = add_throughput_rx_sample measure p t.stats })
record_in_thread measure cap (tx_timestamp ts) t =
    ok (record t { tx_s = add_tx_timestamp measure ts t.tx_s })
record_in_thread measure cap (latency_sample skip diff tx) t = do
  stats ← add_latency_sample measure skip cap diff tx t.stats
  ok (record t { stats = stats })

-- A report is asked for only after a START_MEASURE.
abbrev pub IsExpected : {R : Type 0} → Message R → Manager R → Type 0
IsExpected (start_load payload) s = Unit
IsExpected (start_measure payload sampling) s = Unit
IsExpected (report_req payload) s = 0 < s.per_thread_samples
IsExpected unknown_message s = Unit

module _ (F : Real) (Q : Sort) where
  open F use {R}

  -- The steps of the system: a message that the manager answers, or a recording of one thread.
  pub data Step (s s' : Manager R) : Type 0 where
    answer :
        (o : Outside R) (m : Message R) (reply : List (Field R))
        → IsExpected m s
        → manager_step F Q o m s ≡ ok (replied reply s')
        → Step s s'
    thread :
        (before after : List ThreadStats) (t t' : ThreadStats) (a : Recording)
        → s.all_stats ≡ before ++ t ∷ after
        → record_in_thread s.should_measure s.per_thread_samples a t ≡ ok t'
        → s' ≡ record s { all_stats = before ++ t' ∷ after }
        → Step s s'

  pub data Reach (s : Manager R) : Manager R → Type 0 where
    here : Reach s s
    next : {t u : Manager R} → Reach s t → Step t u → Reach s u

-- The state when the agent has started, for an agent type that records latencies.
pub record IsFresh {R : Type 0} (s : Manager R) : Type 0 where
  pub idle : s.should_measure ≡ false
  pub unset : s.per_thread_samples ≡ 0
  pub not_throughput : get_agent_type s ≢ throughput_agent
  pub real : get_agent_type s ≢ agent_nr

-- The samples in use of each thread lie in its ring.
abbrev pub FitIn : ℕ → List ThreadStats → Type 0
FitIn cap all = All (λ t. t.stats.size ≤ cap) all

-- What the manager and the threads keep up: the size of the rings is limited, it is set when
-- the threads measure, and the threads' samples then lie in their rings.
pub record IsReady {R : Type 0} (s : Manager R) : Type 0 where
  pub capped : s.per_thread_samples ≤ max_per_thread_samples
  pub measuring : s.should_measure ≡ true → 0 < s.per_thread_samples
  pub fits : 0 < s.per_thread_samples → FitIn s.per_thread_samples s.all_stats
  pub not_throughput : get_agent_type s ≢ throughput_agent
  pub real : get_agent_type s ≢ agent_nr
