-- ===== src/Agent/Start.antt =====
-- `main` and `agent_main` of lancet/agents/agent.c, with the functions that give parts of the
-- configuration.
pub mod Laws
use kata_load_test.Base.{
  ℕ, zero, suc, ◌+◌, ◌*◌, Bool, true, false, not, Option, none, some, List, [], ◌∷◌, length,
  if◌then◌else◌, Outcome, ok, stop, bad_access, exited, ◌>>=◌, ◌>>◌, or_stop, require,
}
use kata_load_test.Base.Int.{ℤ, pos, negsuc, to_u64}
use kata_load_test.Rand.Real.{Real}
use kata_load_test.Rand.Libc.{Libc}
use kata_load_test.Rand.Gen.{RandGen, generate}
use kata_load_test.Stats.State.{AgentType, LatencyStats, ThreadStats, AllStats}
use kata_load_test.Stats.Samples.{init_per_thread_stats}
use kata_load_test.Stats.Sort.{Sort}
use kata_load_test.Timestamping.Setup.{Ifreq, is_nonzero, enable_nic_timestamping}
use kata_load_test.Agent.Config.{AgentConfig, HostTuple, TpMain}
use kata_load_test.Agent.Args.{Opt, ParseState, parse_arguments}
use kata_load_test.Agent.Load.{main_loop}
use kata_load_test.Manager.Wire.{Field}
use kata_load_test.Manager.State.{Manager, Outside, is_nic, manager_init}
use kata_load_test.Manager.Socket.{Sockets, manager_run}

module _ {R : Type 0} where
  abbrev pub get_conn_count : AgentConfig R → ℤ
  get_conn_count cfg = cfg.conn_count

  abbrev pub get_target_count : AgentConfig R → ℕ
  get_target_count cfg = length cfg.targets

  abbrev pub get_targets : AgentConfig R → List HostTuple
  get_targets cfg = cfg.targets

  abbrev pub get_ia_gen : AgentConfig R → Option (RandGen R)
  get_ia_gen cfg = cfg.idist

-- IF_NAME, "enp65s0".
abbrev pub if_name : List ℕ
if_name = b'e' ∷ b'n' ∷ b'p' ∷ b'6' ∷ b'5' ∷ b's' ∷ b'0' ∷ []

-- A thread as it starts: the memory that it gets for its statistics, and what
-- pthread_setaffinity_np returns.
pub record ThreadStart : Type 0 where
  pub fresh : ThreadStats
  pub affinity : ℤ

-- The main loop that the thread then runs, if it does, and the registered statistics.
unfoldable pub agent_main :
    {R : Type 0} → AgentConfig R → ThreadStart → AllStats → Outcome (Option TpMain × AllStats)
agent_main cfg t all = do
  all' ← init_per_thread_stats t.fresh all
  if is_nonzero t.affinity then ok (none, all') else (main_loop cfg >>= λ m. ok (some m, all'))

-- The threads, in the order in which they register.
unfoldable pub start_threads :
    {R : Type 0}
    → AgentConfig R
    → List ThreadStart
    → AllStats
    → Outcome (List (Option TpMain) × AllStats)
unfolding agent_main
start_threads cfg [] all = ok ([], all)
start_threads cfg (t ∷ ts) all = do
  (m, all') ← agent_main cfg t all
  (ms, last) ← start_threads cfg ts all'
  ok (m ∷ ms, last)

-- The loop around pthread_create from `i` on, of which `created` says whether it succeeds: the
-- threads that then run.
unfoldable pub create_threads : (ℕ → Bool) → (ℕ → ThreadStart) → ℕ → ℕ → Outcome (List ThreadStart)
create_threads created thread i zero = ok []
create_threads created thread i (suc n) = do
  require (created i) (exited 255)
  ts ← create_threads created thread (i + 1) n
  ok (thread i ∷ ts)

-- The number of rounds of a loop up to an int.
abbrev pub rounds_up_to : ℤ → ℕ
rounds_up_to (pos n) = n
rounds_up_to (negsuc n) = 0

-- What the calls of `main` give. `thread` numbers the threads that are created in the order in which
-- they register, which is before the first message of the coordinator.
pub record Startup : Type 0 where
  pub ioctl : ℤ → Ifreq → ℤ
  pub nic_socket : ℤ
  pub allocated : LatencyStats
  pub has_tids : Bool
  pub created : ℕ → Bool
  pub thread : ℕ → ThreadStart

module _ (F : Real) (L : Libc) where
  open F use {R}

  -- The variables with static storage, at the start of the program.
  abbrev pub static_state : ParseState R → Startup → Manager R
  static_state agent e = record {
    should_load = false;
    should_measure = false;
    start_measure_time = pos 0;
    stop_measure_time = pos 0;
    agg_stats = e.allocated;
    all_stats = [];
    per_thread_samples = 0;
    sampling_rate = F.of_int (pos 0);
    reference_ia = λ _. 0;
    collected_ia = λ _. 0;
    agent = agent;
  }

  -- The result of `enable_nic_timestamping` is not looked at.
  abbrev pub enable_for : AgentType → Startup → Outcome (Unit {0})
  enable_for atype e =
      if is_nic atype
      then (enable_nic_timestamping e.ioctl e.nic_socket if_name >>= λ _. ok tt)
      else ok tt

  -- `main` up to the call of `manager_run`: the main loops of the threads, and the state.
  unfoldable pub main_start : List Opt → ℕ → Startup → Outcome (List (Option TpMain) × Manager R)
  main_start os sin_addr e = do
    parsed ← parse_arguments F L os sin_addr
    agent ← or_stop parsed (exited 255)
    enable_for agent.cfg.atype e
    let (ret, s) = manager_init e.allocated (static_state agent e)
    require (not (is_nonzero ret)) (exited 255)
    require e.has_tids (exited 255)
    threads ← create_threads e.created e.thread 0 (rounds_up_to agent.cfg.thread_count)
    (loops, all) ← start_threads agent.cfg threads s.all_stats
    ok (loops, record s { all_stats = all })

  -- What `main` makes of the result of `manager_run`, if it returns. (The threads do not return, so
  -- that pthread_join waits for ever.)
  abbrev pub after_run :
      Option ℤ × List (List (Field R)) × Manager R
      → Outcome (Option ℤ × List (List (Field R)) × Manager R)
  after_run (none, replies, s) = ok (none, replies, s)
  after_run (some ret, replies, s) = do
    require (not (is_nonzero ret)) (exited 255)
    ok (some ret, replies, s)

  unfoldable pub main :
      Sort
      → (List ℕ → R)
      → List Opt
      → ℕ
      → Startup
      → Sockets
      → List (Outside R)
      → Outcome (Option ℤ × List (List (Field R)) × Manager R)
  unfolding main_start
  main Q double_of os sin_addr e sys rounds = do
    (loops, s) ← main_start os sin_addr e
    result ← manager_run F Q double_of sys rounds s
    after_run result
