-- ===== src/Agent/Args.antt =====
-- `parse_arguments` of lancet/agents/args.c, on the options that getopt gives.
pub mod Laws
use kata_load_test.Base.{
  ℕ, Bool, true, false, Option, none, some, List, [], ◌∷◌, ◌==◌, if◌then◌else◌, Outcome, ok, stop,
  assert_failed, ◌>>=◌,
}
use kata_load_test.Base.Int.{ℤ, pos, negsuc}
use kata_load_test.Stats.State.{
  AgentType, throughput_agent, latency_agent, symmetric_nic_timestamp_agent, symmetric_agent,
}
use kata_load_test.Rand.Real.{Real}
use kata_load_test.Rand.Libc.{Libc}
use kata_load_test.Rand.Strtok.{is_string}
use kata_load_test.Rand.Gen.{RandGen}
use kata_load_test.Rand.Init.{init_rand}
use kata_load_test.AppProto.Init.{init_app_proto}
use kata_load_test.Agent.Config.{
  AgentConfig, TransportProtocolType, tcp, r2p2, calloc_config, init_transport_protocol,
}
use kata_load_test.Agent.Targets.{TargetState, parse_targets}

-- What getopt gives: the letter, and the text that follows it.
pub record Opt : Type 0 where
  pub c : ℕ
  pub optarg : List ℕ

-- The configuration in the making, the local `sa.sin_addr`, and `reference_ia_gen` of
-- lancet/agents/stats.c.
pub record ParseState (R : Type 0) : Type 0 where
  pub cfg : AgentConfig R
  pub sin_addr : ℕ
  pub reference_ia_gen : Option (RandGen R)

abbrev pub tcp_text : List ℕ
tcp_text = b'T' ∷ b'C' ∷ b'P' ∷ []

abbrev pub r2p2_text : List ℕ
r2p2_text = b'R' ∷ b'2' ∷ b'P' ∷ b'2' ∷ []

-- The agent type with a number; the enumerators count from zero.
abbrev pub agent_type_of : ℤ → Option AgentType
agent_type_of (pos n) =
    if n == 0
    then some throughput_agent
    else if n == 1
    then some latency_agent
    else if n == 2
    then some symmetric_nic_timestamp_agent
    else if n == 3
    then some symmetric_agent
    else none
agent_type_of (negsuc n) = none

abbrev pub transport_of : List ℕ → Option TransportProtocolType
transport_of optarg =
    if is_string tcp_text optarg
    then some tcp
    else if is_string r2p2_text optarg
    then some r2p2
    else none

-- A result of `none` is `return NULL`.
abbrev pub or_null : {A B : Type 0} → Option A → (A → Outcome (Option B)) → Outcome (Option B)
or_null none k = ok none
or_null (some a) k = k a

module _ (F : Real) (L : Libc) where
  open F use {R}

  abbrev pub arg_threads : List ℕ → ParseState R → Outcome (Option (ParseState R))
  arg_threads optarg s =
      ok (some (record s { cfg = record s.cfg { thread_count = L.atoi optarg } }))

  unfoldable pub arg_targets : List ℕ → ParseState R → Outcome (Option (ParseState R))
  arg_targets optarg s = do
    t ← parse_targets L optarg (record { targets = s.cfg.targets; sin_addr = s.sin_addr })
    ok (some (record s { cfg = record s.cfg { targets = t.targets }; sin_addr = t.sin_addr }))

  abbrev pub arg_conns : List ℕ → ParseState R → Outcome (Option (ParseState R))
  arg_conns optarg s = ok (some (record s { cfg = record s.cfg { conn_count = L.atoi optarg } }))

  unfoldable pub arg_agent_type : List ℕ → ParseState R → Outcome (Option (ParseState R))
  arg_agent_type optarg s =
      or_null (agent_type_of (L.atoi optarg))
        λ t. ok (some (record s { cfg = record s.cfg { atype = t } }))

  unfoldable pub arg_transport : List ℕ → ParseState R → Outcome (Option (ParseState R))
  arg_transport optarg s =
      or_null (transport_of optarg) λ t. ok (some (record s { cfg = record s.cfg { tp_type = t } }))

  -- The second `init_rand` gets the buffer as the first leaves it.
  unfoldable pub arg_interarrival : List ℕ → ParseState R → Outcome (Option (ParseState R))
  arg_interarrival optarg s = do
    (made, optarg') ← init_rand F optarg
    (reference, _) ← init_rand F optarg'
    or_null made λ g.
        ok (some (record s { cfg = record s.cfg { idist = some g }; reference_ia_gen = reference }))

  unfoldable pub arg_app_proto : List ℕ → ParseState R → Outcome (Option (ParseState R))
  arg_app_proto optarg s = do
    made ← init_app_proto F L optarg
    or_null made λ p. ok (some (record s { cfg = record s.cfg { app_proto = some p } }))

  -- The body of the loop; abort() for an unknown option.
  unfoldable pub parse_option : Opt → ParseState R → Outcome (Option (ParseState R))
  unfolding arg_targets arg_agent_type arg_transport arg_interarrival arg_app_proto
  parse_option o s =
      if o.c == b't'
      then arg_threads o.optarg s
      else if o.c == b's'
      then arg_targets o.optarg s
      else if o.c == b'c'
      then arg_conns o.optarg s
      else if o.c == b'a'
      then arg_agent_type o.optarg s
      else if o.c == b'p'
      then arg_transport o.optarg s
      else if o.c == b'i'
      then arg_interarrival o.optarg s
      else if o.c == b'r'
      then arg_app_proto o.optarg s
      else stop assert_failed

  unfoldable pub parse_options : List Opt → ParseState R → Outcome (Option (ParseState R))
  unfolding parse_option
  parse_options [] s = ok (some s)
  parse_options (o ∷ os) s =
      let rest = λ (s' : ParseState R). parse_options os s' in
      parse_option o s >>= λ r. or_null r rest

  -- `sin_addr` is what the stack holds.
  unfoldable pub parse_arguments : List Opt → ℕ → Outcome (Option (ParseState R))
  unfolding parse_options
  parse_arguments os sin_addr = do
    parsed ←
        parse_options os
          (record { cfg = calloc_config; sin_addr = sin_addr; reference_ia_gen = none })
    or_null parsed λ s.
        or_null (init_transport_protocol s.cfg.tp_type)
          λ tp. ok (some (record s { cfg = record s.cfg { tp = some tp } }))
