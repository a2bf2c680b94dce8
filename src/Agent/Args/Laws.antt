-- ===== src/Agent/Args/Laws.antt =====
-- What every configuration that `parse_arguments` makes satisfies.
use kata_load_test.Base.{
  ℕ, ◌<◌, ◌≡◌, refl, sym, subst, ap, ◌∙◌, arith, Bool, true, false, ◌==◌, Option, none, some, List,
  [], ◌∷◌, length, if◌then◌else◌, Outcome, ok, >>=-eq-ok, ok-injective,
}
use mathlib.Core.Option
use kata_load_test.Base.Int.{ℤ}
use kata_load_test.Stats.State.{
  AgentType, throughput_agent, latency_agent, symmetric_nic_timestamp_agent, symmetric_agent,
  agent_nr,
}
use kata_load_test.Rand.Real.{Real}
use kata_load_test.Rand.Libc.{Libc}
use kata_load_test.Rand.Init.{init_rand}
use kata_load_test.AppProto.Init.{init_app_proto}
use kata_load_test.Agent.Config.{
  TpMain, TransportProtocolType, tcp, r2p2, TransportProtocol, init_tcp, max_targets,
  init_transport_protocol, throughput_tcp_main, latency_tcp_main, symmetric_nic_tcp_main,
  symmetric_tcp_main, calloc_config,
}
use kata_load_test.Agent.Targets.{parse_targets}
use kata_load_test.Agent.Targets.Bounds.{targets_loop-bounded}
use kata_load_test.Agent.Args.{
  Opt, ParseState, agent_type_of, transport_of, or_null, parse_option, parse_options,
  parse_arguments, arg_targets, arg_agent_type, arg_transport, arg_interarrival, arg_app_proto,
}
use kata_load_test.Agent.Load.{main_loop}

or_null-eq-some :
    {A B : Type 0} (o : Option A) (k : A → Outcome (Option B)) (b : B)
    → or_null o k ≡ ok (some b)
    → (a : A) × (o ≡ some a) × (k a ≡ ok (some b))
or_null-eq-some none k b e = absurd (ground arith)
or_null-eq-some (some a) k b e = (a, refl, e)

-- One of two ways to a result.
if-eq :
    {A : Type 0} {P : Type 0} (b : Bool) (x y : Outcome A) (r : A)
    → (x ≡ ok r → P)
    → (y ≡ ok r → P)
    → (if b then x else y) ≡ ok r
    → P
if-eq true x y r f g e = f e
if-eq false x y r f g e = g e

-- Each agent type that an option can name has a main loop.
HasMain : AgentType → Type 0
HasMain t = (m : TpMain) × (init_tcp.tp_main t ≡ some m)

agent_type_of-HasMain : (n : ℤ) (t : AgentType) → agent_type_of n ≡ some t → HasMain t
unfolding HasMain
agent_type_of-HasMain n throughput_agent e = (throughput_tcp_main, refl)
agent_type_of-HasMain n latency_agent e = (latency_tcp_main, refl)
agent_type_of-HasMain n symmetric_nic_timestamp_agent e = (symmetric_nic_tcp_main, refl)
agent_type_of-HasMain n symmetric_agent e = (symmetric_tcp_main, refl)
agent_type_of-HasMain n agent_nr e = absurd (ground arith)

module _ (F : Real) (L : Libc) where
  open F use {R}

  IsParsed : ParseState R → Type 0
  IsParsed s = (length s.cfg.targets < max_targets) × HasMain s.cfg.atype

  -- The same targets and the same agent type.
  IsParsed-like :
      (s t s' : ParseState R)
      → t.cfg.targets ≡ s.cfg.targets
      → t.cfg.atype ≡ s.cfg.atype
      → IsParsed s
      → ok (some t) ≡ ok (some s')
      → IsParsed s'
  unfolding IsParsed
  IsParsed-like s t s' same_targets same_type h e =
      subst IsParsed (Option.some-injective t s' (ok-injective (some t) (some s') e)) (
        subst (λ u. length u < max_targets) (sym same_targets) h.0,
        subst HasMain (sym same_type) h.1,
      )

  arg_targets-IsParsed :
      (optarg : List ℕ) (s s' : ParseState R)
      → IsParsed s
      → arg_targets F L optarg s ≡ ok (some s')
      → IsParsed s'
  unfolding arg_targets IsParsed
  arg_targets-IsParsed optarg s s' h e =
      let (t, run, last) =
        >>=-eq-ok
          (parse_targets L optarg (record { targets = s.cfg.targets; sin_addr = s.sin_addr })) _
          e in
      subst IsParsed (Option.some-injective _ s' (ok-injective _ (some s') last))
        (targets_loop-bounded L _ _ _ t h.0 run, h.1)

  arg_agent_type-IsParsed :
      (optarg : List ℕ) (s s' : ParseState R)
      → IsParsed s
      → arg_agent_type F L optarg s ≡ ok (some s')
      → IsParsed s'
  unfolding arg_agent_type IsParsed
  arg_agent_type-IsParsed optarg s s' h e =
      let (t, named, last) = or_null-eq-some (agent_type_of (L.atoi optarg)) _ s' e in
      subst IsParsed (Option.some-injective _ s' (ok-injective _ (some s') last))
        (h.0, agent_type_of-HasMain (L.atoi optarg) t named)

  arg_transport-IsParsed :
      (optarg : List ℕ) (s s' : ParseState R)
      → IsParsed s
      → arg_transport F L optarg s ≡ ok (some s')
      → IsParsed s'
  unfolding arg_transport
  arg_transport-IsParsed optarg s s' h e =
      let (t, _, last) = or_null-eq-some (transport_of optarg) _ s' e in
      IsParsed-like s _ s' refl refl h last

  arg_interarrival-IsParsed :
      (optarg : List ℕ) (s s' : ParseState R)
      → IsParsed s
      → arg_interarrival F L optarg s ≡ ok (some s')
      → IsParsed s'
  unfolding arg_interarrival
  arg_interarrival-IsParsed optarg s s' h e =
      let (w, _, e1) = >>=-eq-ok (init_rand F optarg) _ e in
      let (v, _, e2) = >>=-eq-ok (init_rand F w.1) _ e1 in
      let (g, _, last) = or_null-eq-some w.0 _ s' e2 in IsParsed-like s _ s' refl refl h last

  arg_app_proto-IsParsed :
      (optarg : List ℕ) (s s' : ParseState R)
      → IsParsed s
      → arg_app_proto F L optarg s ≡ ok (some s')
      → IsParsed s'
  unfolding arg_app_proto
  arg_app_proto-IsParsed optarg s s' h e =
      let (w, _, e1) = >>=-eq-ok (init_app_proto F L optarg) _ e in
      let (p, _, last) = or_null-eq-some w _ s' e1 in IsParsed-like s _ s' refl refl h last

  parse_option-IsParsed :
      (o : Opt) (s s' : ParseState R)
      → IsParsed s
      → parse_option F L o s ≡ ok (some s')
      → IsParsed s'
  unfolding parse_option
  parse_option-IsParsed o s s' h e =
      if-eq (o.c == b't') _ _ (some s') (IsParsed-like s _ s' refl refl h)
        (if-eq (o.c == b's') _ _ (some s') (arg_targets-IsParsed o.optarg s s' h) (
          if-eq (o.c == b'c') _ _ (some s') (IsParsed-like s _ s' refl refl h) (
            if-eq (o.c == b'a') _ _ (some s') (arg_agent_type-IsParsed o.optarg s s' h) (
              if-eq (o.c == b'p') _ _ (some s') (arg_transport-IsParsed o.optarg s s' h) (
                if-eq (o.c == b'i') _ _ (some s') (arg_interarrival-IsParsed o.optarg s s' h) (
                  if-eq (o.c == b'r') _ _ (some s') (arg_app_proto-IsParsed o.optarg s s' h)
                    (λ never. absurd (ground arith))))))))
        e

  parse_options-IsParsed :
      (os : List Opt) (s s' : ParseState R)
      → IsParsed s
      → parse_options F L os s ≡ ok (some s')
      → IsParsed s'
  unfolding parse_options
  parse_options-IsParsed [] s s' h e = IsParsed-like s s s' refl refl h e
  parse_options-IsParsed (o ∷ os) s s' h e =
      let (r, run, e1) = >>=-eq-ok (parse_option F L o s) _ e in
      let (s1, made, e2) = or_null-eq-some r _ s' e1 in
      parse_options-IsParsed os s1 s' (parse_option-IsParsed o s s1 h (run ∙ ap ok made)) e2

  IsUsable : ParseState R → Type 0
  IsUsable s =
      (length s.cfg.targets < max_targets)
      × (s.cfg.tp_type ≡ tcp)
      × (s.cfg.tp ≡ some init_tcp)
      × (m : TpMain) × (main_loop s.cfg ≡ ok m)

  tcp-made :
      (t : TransportProtocolType) (tp : TransportProtocol)
      → init_transport_protocol t ≡ some tp
      → (t ≡ tcp) × (some tp ≡ some init_tcp)
  tcp-made tcp tp e = (refl, sym e)
  tcp-made r2p2 tp e = absurd (ground arith)

  tp-IsUsable :
      (p : ParseState R) (tp : TransportProtocol)
      → IsParsed p
      → init_transport_protocol p.cfg.tp_type ≡ some tp
      → IsUsable (record p { cfg = record p.cfg { tp = some tp } })
  unfolding IsUsable IsParsed HasMain main_loop
  tp-IsUsable p tp (few, (m, has_main)) made =
      let (is_tcp, table) = tcp-made p.cfg.tp_type tp made in
      (few, is_tcp, table, m, rw (Option.some-injective tp init_tcp table, has_main))

  -- A configuration that `parse_arguments` returns, whatever the options, has fewer than 4096
  -- targets, TCP as its transport protocol with the table of main loops for it, and an agent type
  -- for which the table has a main loop.
  pub parse_arguments-usable :
      (os : List Opt) (sin_addr : ℕ) (s : ParseState R)
      → parse_arguments F L os sin_addr ≡ ok (some s)
      → (length s.cfg.targets < max_targets)
        × (s.cfg.tp_type ≡ tcp)
        × (s.cfg.tp ≡ some init_tcp)
        × (m : TpMain) × (main_loop s.cfg ≡ ok m)
  unfolding parse_arguments IsUsable IsParsed HasMain
  parse_arguments-usable os sin_addr s e =
      let (r, run, e1) = >>=-eq-ok (parse_options F L os start) _ e in
      let (p, parsed, e2) = or_null-eq-some r _ s e1 in
      let (tp, made, e3) = or_null-eq-some (init_transport_protocol p.cfg.tp_type) _ s e2 in
      subst IsUsable (Option.some-injective _ s (ok-injective _ (some s) e3)) (
        tp-IsUsable p tp
          (parse_options-IsParsed os start p (omega arith, (throughput_tcp_main, refl))
            (run ∙ ap ok parsed))
          made)
    where
      start : ParseState R
      start = record { cfg = calloc_config; sin_addr = sin_addr; reference_ia_gen = none }
