-- ===== src/Agent/Load.antt =====
-- What the other parts ask of lancet/agents/agent.c: the interarrival times, the load, the responses
-- and the main loop; and `set_reference_load` of lancet/agents/stats.c.
pub mod Laws
use kata_load_test.Base.{
  ℕ, ◌+◌, List, [], ◌∷◌, Outcome, ok, bad_access, ◌>>=◌, or_stop, Option, some,
}
use kata_load_test.Base.Int.{ℤ, pos, negsuc, to_u64}
use kata_load_test.Rand.Real.{Real}
use kata_load_test.Rand.Gen.{RandGen, generate, set_avg}
use kata_load_test.Stats.State.{ByteReqPair}
use kata_load_test.AppProto.Response.{
  AppProto, proto_echo, proto_synthetic, proto_ascii_memcached, proto_ascii_memcached_svc,
  consume_response,
}
use kata_load_test.AppProto.Decimal.{decimal}
use kata_load_test.AppProto.Request.{Request, PerThread, get_key, create_request}
use kata_load_test.Agent.Config.{AgentConfig, TpMain}
use kata_load_test.Agent.Args.{ParseState}

-- `cfg->tp->tp_main[cfg->atype]`, which `agent_main` calls.
unfoldable pub main_loop : {R : Type 0} → AgentConfig R → Outcome TpMain
main_loop cfg = do tp ← or_stop cfg.tp bad_access; or_stop (tp.tp_main cfg.atype) bad_access

unfoldable pub process_response : {R : Type 0} → AgentConfig R → ℕ → Outcome ByteReqPair
unfolding consume_response
process_response cfg size = or_stop cfg.app_proto bad_access >>= λ p. consume_response p.type size

module _ (F : Real) where
  open F use {R}

  -- `draw` is what the random number generator gives.
  unfoldable pub get_ia : AgentConfig R → R → Outcome ℤ
  unfolding generate
  get_ia cfg draw = do
    gen ← or_stop cfg.idist bad_access
    v ← generate F gen draw
    ok (F.lround (F.mul v (F.of_int (pos 1000))))

  abbrev drawn : Option (RandGen R) → R → Outcome ℤ
  drawn gen draw = do g ← or_stop gen bad_access; v ← generate F g draw; ok (F.lround v)

  -- `lround(generate(..))` for the generator of a protocol, if it has one; and the request, of which
  -- the memcached service protocol prints a negative sample with its sign.
  abbrev pub sample_of : AppProto → Option (RandGen R) → R → Outcome ℤ
  sample_of (proto_echo msg_len) gen draw = ok (pos 0)
  sample_of proto_synthetic gen draw = drawn gen draw
  sample_of proto_ascii_memcached gen draw = ok (pos 0)
  sample_of proto_ascii_memcached_svc gen draw = drawn gen draw

  abbrev pub request_of : AppProto → ℤ → PerThread → Request × PerThread
  request_of proto_ascii_memcached_svc (negsuc n) arg =
      (get_key (b'-' ∷ decimal 18 (n + 1)) ∷ [], arg)
  request_of type sample arg = create_request type (to_u64 sample) arg

  -- `arg` is what `per_thread_arg` holds, before and after.
  unfoldable pub prepare_request : AgentConfig R → R → PerThread → Outcome (Request × PerThread)
  unfolding create_request generate
  prepare_request cfg draw arg = do
    p ← or_stop cfg.app_proto bad_access
    sample ← sample_of p.type p.gen draw
    ok (request_of p.type sample arg)

  -- The literal 1e6.
  abbrev pub million : R
  million = F.literal 1_000_000 0

  -- The average interarrival time of the agent, and of one of its threads.
  abbrev pub reference_avg : ℕ → R
  reference_avg load = F.div million (F.of_int (pos load))

  abbrev pub thread_avg : ℕ → ℤ → R
  thread_avg load threads = F.div million (F.div (F.of_int (pos load)) (F.of_int threads))

  unfoldable pub set_reference_load : ℕ → Option (RandGen R) → Outcome (RandGen R)
  set_reference_load load reference =
      or_stop reference bad_access >>= λ g. set_avg F g (reference_avg load)

  unfoldable pub set_load : ℕ → ParseState R → Outcome (ParseState R)
  unfolding set_reference_load
  set_load load s = do
    reference ← set_reference_load load s.reference_ia_gen
    gen ← or_stop s.cfg.idist bad_access
    gen' ← set_avg F gen (thread_avg load s.cfg.thread_count)
    ok (record s { reference_ia_gen = some reference; cfg = record s.cfg { idist = some gen' } })
