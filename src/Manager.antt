-- ===== src/Manager.antt =====
-- lancet/agents/manager.c: the loop that takes the coordinator's messages, and its replies.
pub mod Wire
pub mod State
pub mod Reply
pub mod Socket
pub mod Laws
pub mod Latency
pub mod Frame
pub mod Reading
pub mod Protocol
pub mod Tests
use kata_load_test.Base.{
  ℕ, ◌-◌, ◌^◌, Bool, true, false, List, [], ◌∷◌, Option, none, some, if◌then◌else◌, ◌==◌, ltb,
  length, take, drop, wrap32, Outcome, ok, stop, assert_failed, ◌>>=◌, ◌>>◌, assert,
}
use kata_load_test.Base.Int.{ℤ, pos, negsuc, to_u64}
use kata_load_test.Rand.Real.{Real}
use kata_load_test.Stats.Samples.{clear_all_stats, set_per_thread_samples}
use kata_load_test.Stats.Sort.{Sort}
use kata_load_test.Stats.Interarrival.{collect_reference_ia}
use kata_load_test.Agent.Load.{set_load}
use kata_load_test.Manager.Wire.{
  Field, number_of, sizeof_hdr, sizeof_u32, sizeof_double, type_start_load, type_start_measure,
  type_report_req, report_throughput, report_latency,
}
use kata_load_test.Manager.State.{
  Manager, Outside, Read, failed, received, get_agent_type, get_thread_count,
}
use kata_load_test.Manager.Reply.{reply_ack, reply_throughput_stats, reply_latency_stats}

-- A message of the coordinator: the payload as uint32_t, and the sampling rate of START_MEASURE.
pub data Message (R : Type 0) : Type 0 where
  start_load : ℕ → Message R
  start_measure : ℕ → R → Message R
  report_req : ℕ → Message R
  unknown_message : Message R

-- What the reading of a message comes to: the message, the end of the connection, or an error.
pub data Incoming (R : Type 0) : Type 0 where
  message : Message R → Incoming R
  closed : Incoming R
  read_error : Incoming R

-- What a round of the loop comes to: a return out of `manager_run`, or the reply sent.
pub data Turn (R : Type 0) : Type 0 where
  returned : ℤ → Turn R
  replied : List (Field R) → Manager R → Turn R

-- `assert(n == sizeof(...))` behind a read.
abbrev pub read_exactly : ℕ → Read → Outcome (List ℕ)
read_exactly n failed = stop assert_failed
read_exactly n (received bs) = do assert (length bs == n); ok bs

-- A uint32_t as an int.
abbrev pub as_int : ℕ → ℤ
as_int n = if ltb n (2 ^ 31) then pos n else negsuc (2 ^ 32 - 1 - n)

module _ (F : Real) where
  open F use {R}

  -- `lround(1.01*payload1/get_thread_count())`, as an int: a negative one as the uint32_t of its
  -- bits, which fails an assertion of `set_per_thread_samples` as it does itself.
  abbrev pub samples_for : ℕ → Manager R → ℕ
  samples_for payload s = wrap32 (
      to_u64 (
        F.lround (
          F.div (F.mul (F.literal 101 2) (F.of_int (as_int payload)))
            (F.of_int (get_thread_count s)))))

module _ (F : Real) (double_of : List ℕ → F.R) where
  open F use {R}

  -- The reads of START_MEASURE.
  abbrev pub read_start_measure : Outside R → Outcome (Incoming R)
  read_start_measure o = do
    payload ← read_exactly sizeof_u32 o.payload
    sampling ← read_exactly sizeof_double o.sampling
    ok (message (start_measure (number_of payload) (double_of sampling)))

  -- The switch over `hdr.MessageType`, with the reads of the payload.
  unfoldable pub read_payload : Outside R → ℕ → Outcome (Incoming R)
  read_payload o message_type =
      if message_type == type_start_load
      then (read_exactly sizeof_u32 o.payload >>= λ bs. ok (message (start_load (number_of bs))))
      else if message_type == type_start_measure
      then read_start_measure o
      else if message_type == type_report_req
      then (read_exactly sizeof_u32 o.payload >>= λ bs. ok (message (report_req (number_of bs))))
      else ok (message unknown_message)

  unfoldable pub read_message : Outside R → Read → Outcome (Incoming R)
  read_message o failed = ok read_error
  read_message o (received []) = ok closed
  read_message o (received (b ∷ bs)) = do
    hdr ← read_exactly sizeof_hdr (received (b ∷ bs))
    read_payload o (number_of (take 4 hdr))

module _ (F : Real) (Q : Sort) where
  open F use {R}

  -- For REPORT_REQ, before the reply.
  abbrev pub stop_measuring : ℤ → Manager R → Manager R
  stop_measuring now s =
      if s.should_measure then record s { should_measure = false; stop_measure_time = now } else s

  -- The rest of the handling of REPORT_REQ, for the reply given.
  abbrev pub resume : List (Field R) × Manager R → Outcome (Turn R)
  resume (reply, s) = ok (replied reply (record s { should_measure = true }))

  unfoldable pub handle_load : Outside R → ℕ → Manager R → Outcome (Turn R)
  handle_load o payload s = do
    agent ← set_load F payload s.agent
    reply ← reply_ack o.written
    ok (
        replied reply (record s {
          agent = agent;
          should_measure = false;
          all_stats = clear_all_stats (get_agent_type s) s.all_stats;
          should_load = true;
        }))

  unfoldable pub handle_measure : Outside R → ℕ → R → Manager R → Outcome (Turn R)
  handle_measure o payload sampling s = do
    per_thread ← set_per_thread_samples (samples_for F payload s)
    reply ← reply_ack o.written
    reference_ia ← collect_reference_ia F s.agent.reference_ia_gen o.draws s.reference_ia
    ok (
        replied reply (record s {
          all_stats = clear_all_stats (get_agent_type s) s.all_stats;
          per_thread_samples = per_thread;
          sampling_rate = F.div sampling (F.of_int (pos 100));
          start_measure_time = o.now;
          should_measure = true;
          reference_ia = reference_ia;
        }))

  unfoldable pub handle_report : Outside R → ℕ → Manager R → Outcome (Turn R)
  handle_report o payload s =
      if payload == report_throughput
      then reply_throughput_stats F Q o (stop_measuring o.now s) >>= resume
      else if payload == report_latency
      then reply_latency_stats F Q o (stop_measuring o.now s) >>= resume
      else ok (returned (negsuc 0))

  -- The handling of a message that was read.
  unfoldable pub manager_step : Outside R → Message R → Manager R → Outcome (Turn R)
  manager_step o (start_load payload) s = handle_load o payload s
  manager_step o (start_measure payload sampling) s = handle_measure o payload sampling s
  manager_step o (report_req payload) s = handle_report o payload s
  manager_step o unknown_message s = ok (returned (negsuc 0))

  -- A round of the loop, from what was read.
  abbrev pub handle_incoming : Outside R → Manager R → Incoming R → Outcome (Turn R)
  handle_incoming o s (message m) = manager_step o m s
  handle_incoming o s closed = ok (returned (pos 0))
  handle_incoming o s read_error = ok (returned (negsuc 0))

  module _ (double_of : List ℕ → R) where
    unfoldable pub manager_round : Outside R → Manager R → Outcome (Turn R)
    manager_round o s = read_message F double_of o o.header >>= handle_incoming o s

    -- The loop of `manager_run` for a list of rounds between which no thread records anything: what `manager_run` returns, if it does, the replies, and the state.
    unfoldable pub manager_loop :
        List (Outside R) → Manager R → Outcome (Option ℤ × List (List (Field R)) × Manager R)
    manager_loop [] s = ok (none, [], s)
    manager_loop (o ∷ os) s = manager_round o s >>= continue_with (manager_loop os)
      where
        continue_with :
            (Manager R → Outcome (Option ℤ × List (List (Field R)) × Manager R))
            → Turn R
            → Outcome (Option ℤ × List (List (Field R)) × Manager R)
        continue_with next (returned n) = ok (some n, [], s)
        continue_with next (replied reply s') = do
          (result, replies, last) ← next s'
          ok (result, reply ∷ replies, last)
