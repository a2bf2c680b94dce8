-- ===== src/Agent/Tests.antt =====
-- The arguments on concrete options, with integers in the place of doubles.
use kata_load_test.Base.{
  map, slice, ℕ, ◌<◌, ◌≡◌, refl, ◌⊎◌, ◌++◌, none, some, true, List, [], ◌∷◌, arith, length, ok,
  stop, assert_failed, ◌>>=◌,
}
use kata_load_test.Base.Int.{ℤ, pos}
use kata_load_test.Rand.Libc.{Libc}
use kata_load_test.Rand.Strtok.{strtok}
use kata_load_test.Rand.Gen.{RandGen, exponential, gev}
use kata_load_test.Rand.Init.{init_rand, parse_param_1, exp_text}
use kata_load_test.Rand.Laws.{IsAdjustable}
use kata_load_test.Rand.Tests.{integers}
use kata_load_test.AppProto.Decimal.{value, value_from}
use kata_load_test.Timespec.{zero_timespec}
use kata_load_test.Stats.State.{symmetric_agent, no_stats, ThreadStats}
use kata_load_test.Manager.State.{Manager}
use kata_load_test.Manager.Protocol.{IsFresh}
use kata_load_test.Agent.Start.{Startup, main_start}
use kata_load_test.Agent.Start.Laws.{registered, main_start-IsFresh}
use kata_load_test.Agent.Config.{HostTuple, TpMain, tcp, init_tcp, max_targets, calloc_config}
use kata_load_test.Agent.Targets.{TargetState, parse_targets}
use kata_load_test.Agent.Targets.Laws.{TargetText, print_targets, parse_targets-print}
use kata_load_test.Agent.Args.{Opt, ParseState, parse_option, parse_arguments}
use kata_load_test.Agent.Args.Laws.{parse_arguments-usable}
use kata_load_test.Agent.Load.{main_loop, set_load}
use kata_load_test.Agent.Load.Laws.{
  HaveGenerators, set_load-cases, loaded, then_load, interarrival-set_load,
}

-- atoi reads a digit; an address is the value of its text.
abbrev texts : Libc
texts = record { atoi = λ t. pos (value t); inet_pton = λ t. some (value t) }

abbrev two_targets : List TargetText
two_targets =
    record { ip_text = b'7' ∷ []; port_text = b'8' ∷ [] }
    ∷ record { ip_text = b'9' ∷ []; port_text = b'1' ∷ b'0' ∷ [] }
    ∷ []

abbrev no_targets : TargetState
no_targets = record { targets = []; sin_addr = 0 }

abbrev two_hosts : List HostTuple
two_hosts = record { ip = 7; port = 8 } ∷ record { ip = 9; port = 10 } ∷ []

parse_targets-print_example :
    (a : ℕ) × (parse_targets texts (print_targets two_targets) no_targets
      ≡ ok (record { targets = two_hosts; sin_addr = a }))
unfolding value_from
parse_targets-print_example =
    parse_targets-print texts two_targets
      (
        (((refl, tt), (refl, tt), tt), ((refl, tt), (refl, tt), tt), 7, refl),
        ((((refl, tt), (refl, tt), tt), ((refl, (refl, tt)), (refl, (refl, tt)), tt), 9, refl), tt),
      )
      no_targets (omega arith)

abbrev state : ParseState ℤ
state = record {
  cfg = record (calloc_config {R = ℤ}) { tp = some init_tcp };
  sin_addr = 5;
  reference_ia_gen = none;
}

parse_arguments-usable_example :
    (length state.cfg.targets < max_targets)
    × (state.cfg.tp_type ≡ tcp)
    × (state.cfg.tp ≡ some init_tcp)
    × (m : TpMain) × (main_loop state.cfg ≡ ok m)
parse_arguments-usable_example =
    parse_arguments-usable integers texts [] 5 state (unfold parse_arguments in refl)

abbrev sevens : RandGen ℤ
sevens = gev (record { loc = pos 7; scale = pos 7; shape = pos 7 })

abbrev with_sevens : ParseState ℤ
with_sevens = record state {
  cfg = record (calloc_config {R = ℤ}) { idist = some sevens };
  reference_ia_gen = some sevens;
}

set_load-cases_example :
    ((s' : ParseState ℤ) × (g' : RandGen ℤ) × (r' : RandGen ℤ) × (set_load integers 9 with_sevens
        ≡ ok s')
      × HaveGenerators integers texts s' g' r'
      × IsAdjustable g'
      × IsAdjustable r')
    ⊎ ((set_load integers 9 with_sevens ≡ stop assert_failed)
        × (¬ (IsAdjustable sevens × IsAdjustable sevens)))
set_load-cases_example = set_load-cases integers texts with_sevens sevens sevens 9 (refl, refl)

interarrival-set_load_example :
    (parse_option integers texts (record { c = b'i'; optarg = exp_text ++ b':' ∷ b'4' ∷ [] }) state
      >>= then_load integers texts 9)
    ≡ (loaded integers texts 9 (exponential (pos 1)) state >>= λ t. ok (some t))
interarrival-set_load_example =
    interarrival-set_load integers texts exp_text (b'4' ∷ []) (ground arith) tt
      (exponential (pos 1)) (exp_text ++ 0 ∷ b'4' ∷ [])
      (unfold init_rand parse_param_1 strtok value_from in refl) state 9

-- Two threads of the symmetric agent.
abbrev options : List Opt
options = record { c = b't'; optarg = b'2' ∷ [] } ∷ record { c = b'a'; optarg = b'3' ∷ [] } ∷ []

abbrev two_threads : ParseState ℤ
two_threads = record {
  cfg = record (calloc_config {R = ℤ}) {
    thread_count = pos 2;
    atype = symmetric_agent;
    tp = some init_tcp;
  };
  sin_addr = 5;
  reference_ia_gen = none;
}

abbrev startup : Startup
startup = record {
  ioctl = λ fd ifr. pos 0;
  nic_socket = pos 3;
  allocated = no_stats;
  has_tids = true;
  created = λ i. true;
  thread = λ i. record { fresh = blank; affinity = pos i };
}
  where
    blank : ThreadStats
    blank = record { stats = no_stats; tx_s = record { count = 0; samples = λ _. zero_timespec } }

two_threads_parsed : parse_arguments integers texts options 5 ≡ ok (some two_threads)
unfolding parse_arguments parse_option value_from
two_threads_parsed = refl

main_start-IsFresh_example :
    (m : TpMain) × (s : Manager ℤ) × (main_loop two_threads.cfg ≡ ok m)
    × (main_start integers texts options 5 startup ≡ ok (some m ∷ none ∷ [], s))
    × (s.agent ≡ two_threads)
    × (s.all_stats ≡ map registered (slice startup.thread 0 2))
    × IsFresh s
main_start-IsFresh_example =
    main_start-IsFresh integers texts options 5 startup two_threads 2 two_threads_parsed (λ e. cc e)
      refl refl (λ i h. refl) (omega arith)
