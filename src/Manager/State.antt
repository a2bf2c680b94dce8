-- ===== src/Manager/State.antt =====
-- The variables that lancet/agents/manager.c works on, and what it gets from outside in a round.
use kata_load_test.Base.{ℕ, Bool, true, false, List}
use kata_load_test.Base.Int.{ℤ, ◌-ℤ◌, pos, to_u64}
use kata_load_test.Timespec.{Timespec}
use kata_load_test.Stats.State.{
  AgentType, throughput_agent, latency_agent, symmetric_nic_timestamp_agent, symmetric_agent,
  agent_nr, LatencyStats, AllStats,
}
use kata_load_test.Agent.Args.{ParseState}

abbrev pub is_nic : AgentType → Bool
is_nic throughput_agent = false
is_nic latency_agent = false
is_nic symmetric_nic_timestamp_agent = true
is_nic symmetric_agent = false
is_nic agent_nr = false

-- The file's variables (`agents_should_load` as `should_load`, and so on); those of
-- lancet/agents/stats.c that it works on: the threads' statistics, `per_thread_samples`,
-- `sampling_rate`, and the arrays of interarrival times; and the configuration with the generators.
pub record Manager (R : Type 0) : Type 0 where
  pub should_load : Bool
  pub should_measure : Bool
  pub start_measure_time : ℤ
  pub stop_measure_time : ℤ
  pub agg_stats : LatencyStats
  pub all_stats : AllStats
  pub per_thread_samples : ℕ
  pub sampling_rate : R
  pub reference_ia : ℕ → ℕ
  pub collected_ia : ℕ → ℕ
  pub agent : ParseState R

module _ {R : Type 0} where
  abbrev pub get_agent_type : Manager R → AgentType
  get_agent_type s = s.agent.cfg.atype

  abbrev pub get_thread_count : Manager R → ℤ
  get_thread_count s = s.agent.cfg.thread_count

  abbrev pub duration_of : Manager R → ℕ
  duration_of s = to_u64 (s.stop_measure_time -ℤ s.start_measure_time)

  -- `allocated` is what malloc left in the memory for the aggregate. The result is 0.
  abbrev pub manager_init : LatencyStats → Manager R → ℤ × Manager R
  manager_init allocated s = (pos 0, record s { agg_stats = allocated })

-- What a call of `read` gives.
pub data Read : Type 0 where
  failed : Read
  received : List ℕ → Read

-- What the calls of one round of the loop give: the three of `read`, in this order, as far as they
-- are made; `writev`; the clock; the draws of the random number generator; and what the local
-- variables that are not set hold in `compute_convergence` and in `check_ia`.
pub record Outside (R : Type 0) : Type 0 where
  pub header : Read
  pub payload : Read
  pub sampling : Read
  pub written : ℕ
  pub now : ℤ
  pub draws : ℕ → R
  pub unset_convergence : R
  pub unset_ia : R
  pub stack : ℕ → Timespec
