-- ===== src/Agent/Start/Laws.antt =====
-- The start of the agent.
use mathlib.Core.List.{append-nil, append_assoc}
use kata_load_test.Base.{
  slice, length-slice, ℕ, zero, suc, ◌+◌, ◌≤◌, ◌<◌, ◌≡◌, ◌≢◌, refl, Bool, Bool-cases, inl, inr,
  true, Option, none, some, List, [], ◌∷◌, ◌++◌, map, length, length-append, if◌then◌else◌, arith,
  lt→ltb, ok,
}
use kata_load_test.Base.Int.{pos}
use kata_load_test.Rand.Real.{Real}
use kata_load_test.Rand.Libc.{Libc}
use kata_load_test.Stats.State.{AgentType, throughput_agent, agent_nr, ThreadStats, AllStats}
use kata_load_test.Stats.Samples.{init_per_thread_stats}
use kata_load_test.Timestamping.Setup.{is_nonzero, enable_nic_timestamping}
use kata_load_test.Agent.Config.{AgentConfig, TpMain, init_tcp}
use kata_load_test.Agent.Args.{Opt, ParseState, parse_arguments}
use kata_load_test.Agent.Args.Laws.{parse_arguments-usable}
use kata_load_test.Agent.Load.{main_loop}
use kata_load_test.Manager.State.{Manager, is_nic}
use kata_load_test.Manager.Protocol.{IsFresh}
use kata_load_test.Agent.Start.{
  ThreadStart, agent_main, start_threads, create_threads, rounds_up_to, Startup, enable_for,
  main_start, static_state,
}

create_threads-ok :
    (created : ℕ → Bool) (thread : ℕ → ThreadStart) (i n : ℕ)
    → ((j : ℕ) → i ≤ j → j < i + n → created j ≡ true)
    → create_threads created thread i n ≡ ok (slice thread i n)
unfolding create_threads
create_threads-ok created thread i zero h = refl
create_threads-ok created thread i (suc n) h =
    let rest =
      create_threads-ok created thread (i + 1) n (λ j lo hi. h j (omega arith) (omega arith)) in
    rw (h i (omega arith) (omega arith), rest) refl

-- The main loop that a thread runs: none if its affinity cannot be set.
abbrev pub loop_of : TpMain → ThreadStart → Option TpMain
loop_of m t = if is_nonzero t.affinity then none else some m

-- What a thread registers: the memory that it got, and no send times.
abbrev pub registered : ThreadStart → ThreadStats
registered t = record {
  stats = t.fresh.stats;
  tx_s = record { count = 0; samples = t.fresh.tx_s.samples };
}

agent_main-ok :
    {R : Type 0} (cfg : AgentConfig R) (m : TpMain) (t : ThreadStart) (all : AllStats)
    → main_loop cfg ≡ ok m
    → length all < 64
    → agent_main cfg t all ≡ ok (loop_of m t, all ++ registered t ∷ [])
unfolding agent_main init_per_thread_stats
agent_main-ok cfg m t all runs room = elim (Bool-cases (is_nonzero t.affinity)) [
  | inl failed ↦ rw (lt→ltb (length all) 64 room, failed) refl
  | inr set ↦ rw (lt→ltb (length all) 64 room, set, runs) refl
]

start_threads-ok :
    {R : Type 0} (cfg : AgentConfig R) (m : TpMain) (ts : List ThreadStart) (all : AllStats)
    → main_loop cfg ≡ ok m
    → length all + length ts ≤ 64
    → start_threads cfg ts all ≡ ok (map (loop_of m) ts, all ++ map registered ts)
unfolding start_threads
start_threads-ok cfg m [] all runs room = rw (append-nil all) refl
start_threads-ok cfg m (t ∷ ts) all runs room =
    let first = agent_main-ok cfg m t all runs (omega arith) in
    let rest =
      start_threads-ok cfg m ts (all ++ registered t ∷ []) runs
        (omega (arith, length-append all (registered t ∷ []))) in
    rw (first, rest, append_assoc all (registered t ∷ []) (map registered ts)) refl

-- The name of the interface is short enough.
enable_for-ok :
    (F : Real) (L : Libc) (atype : AgentType) (e : Startup) → enable_for F L atype e ≡ ok tt
unfolding enable_nic_timestamping
enable_for-ok F L atype e = elim (Bool-cases (is_nic atype)) [
  | inl nic ↦ rw nic refl
  | inr plain ↦ rw plain refl
]

has_loop :
    {R : Type 0} (cfg : AgentConfig R) (m : TpMain)
    → cfg.tp ≡ some init_tcp
    → main_loop cfg ≡ ok m
    → cfg.atype ≢ agent_nr
unfolding main_loop
has_loop cfg m tp run = λ last. let never = rw (tp, last) at run in cc never

module _ (F : Real) (L : Libc) where
  open F use {R}

  -- If the arguments are accepted with `n` threads, at most 64, and memory and the threads can be
  -- had, for an agent type that records latencies: the start succeeds. Exactly `n` threads start; each
  -- runs the main loop of the agent type, if its affinity can be set; the manager has the
  -- configuration, and as the threads' statistics the memory of each of the `n` threads, in the
  -- order in which they register; and it is fresh: no measurement, and no size of the rings.
  pub main_start-IsFresh :
      (os : List Opt) (sin_addr : ℕ) (e : Startup) (agent : ParseState R) (n : ℕ)
      → parse_arguments F L os sin_addr ≡ ok (some agent)
      → agent.cfg.atype ≢ throughput_agent
      → agent.cfg.thread_count ≡ pos n
      → e.has_tids ≡ true
      → ((i : ℕ) → i < n → e.created i ≡ true)
      → n ≤ 64
      → (m : TpMain) × (s : Manager R) × (main_loop agent.cfg ≡ ok m)
        × (main_start F L os sin_addr e ≡ ok (map (loop_of m) (slice e.thread 0 n), s))
        × (s.agent ≡ agent)
        × (s.all_stats ≡ map registered (slice e.thread 0 n))
        × IsFresh s
  unfolding main_start
  main_start-IsFresh os sin_addr e agent n parsed latencies count tids created few =
      let (_, _, tp, m, runs) = parse_arguments-usable F L os sin_addr agent parsed in
      let run =
        start_threads-ok agent.cfg m (slice e.thread 0 n) [] runs
          (omega (arith, few, length-slice e.thread 0 n)) in
      let spawned : create_threads e.created e.thread 0 (rounds_up_to agent.cfg.thread_count)
          ≡ ok (slice e.thread 0 n) =
        rw count
          (create_threads-ok e.created e.thread 0 n (λ j lo hi. created j (omega (arith, hi)))) in
      let nic = enable_for-ok F L agent.cfg.atype e in
      (
        m,
        record (static_state F L agent e) { all_stats = map registered (slice e.thread 0 n) },
        runs,
        rw (parsed, nic, tids, spawned, run) refl,
        refl,
        refl,
        record {
          idle = refl;
          unset = refl;
          not_throughput = latencies;
          real = has_loop agent.cfg m tp runs;
        },
      )
