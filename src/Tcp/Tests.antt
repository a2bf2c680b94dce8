-- ===== src/Tcp/Tests.antt =====
-- The agents on one connection that speaks the echo protocol.
mod Nic
mod Latency
mod Opening
use mathlib.Core.List.{flatten}
use kata_load_test.Base.{
  update, ℕ, ◌+◌, ◌-◌, ◌≡◌, refl, subst, ◌⊎◌, true, false, none, some, List, [], ◌∷◌, ◌++◌, arith,
  length, get_elem?, Outcome, ok, stop, assert_failed, ok-injective, All,
}
use kata_load_test.Base.Int.{pos, ◌-ℤ◌, ◌+ℤ◌}
use kata_load_test.Timespec.{timespec_diff, Timespec, zero_timespec}
use kata_load_test.Stats.State.{no_stats, ByteReqPair}
use kata_load_test.Timestamping.Pending.{
  PendingTxTimestamps, fresh_pending, pop_pending_tx_timestamps,
}
use kata_load_test.Timestamping.Queue.{IsQueue, waiting}
use kata_load_test.AppProto.Response.{consume_response, AppProto, proto_echo, unit_size}
use kata_load_test.AppProto.Request.{null}
use kata_load_test.Tcp.Connection.{TcpConnection, opened, sent, bytes, pick_conn}
use kata_load_test.Tcp.Receive.{receive}
use kata_load_test.Tcp.Stream.{contents, Counted, receive-Counted}
use kata_load_test.Tcp.Reassembly.{receive_all, IsPiece, Split, receive_all-reassembles}
use kata_load_test.Tcp.Balance.{IsPicked, pick_conn_sound}
use kata_load_test.Tcp.Reads.{receive-short}
use kata_load_test.Tcp.Thread.{Thread, Readable, readable, Event, Round}
use kata_load_test.Tcp.Nic.{Attempt, nic_sends}
use kata_load_test.Tcp.Nic.Invariant.{IsEnded, nic_sends-IsEnded}
use kata_load_test.Tcp.Throughput.{throughput_run, throughput_load}
use kata_load_test.Tcp.Throughput.Invariant.{
  IsBalancedThread, HonestRun, IsHonestEvent, throughput_run-IsBalanced,
}
use kata_load_test.Tcp.Symmetric.{sample_latency, symmetric_run, symmetric_round, symmetric_load}
use kata_load_test.Tcp.Symmetric.Match.{Matched, match_responses-Matched}
use kata_load_test.Tcp.Symmetric.Invariant.{IsInStep}
use kata_load_test.Tcp.Symmetric.Run.{FairRun, IsFairEvent, symmetric_run-IsInStep}

abbrev pub echo4 : AppProto
echo4 = proto_echo 4

abbrev conn0 : TcpConnection
conn0 = opened 3 0

-- Two reads of six bytes are three responses of four.
abbrev six : List ℕ
six = 1 ∷ 2 ∷ 3 ∷ 4 ∷ 5 ∷ 6 ∷ []

two_pieces-IsPiece : All (IsPiece (unit_size echo4)) (six ∷ six ∷ [])
two_pieces-IsPiece = ground arith

receive_all-reassembles_example :
    (n : ℕ) × (c' : TcpConnection) × (receive_all echo4 (six ∷ six ∷ []) conn0 ≡ ok (n, c'))
    × Split (unit_size echo4) n (contents conn0 ++ flatten (six ∷ six ∷ [])) c'
receive_all-reassembles_example =
    receive_all-reassembles echo4 (omega arith) (six ∷ six ∷ []) conn0 two_pieces-IsPiece
      (omega arith)

receive-short_example : receive echo4 true (bytes (1 ∷ 2 ∷ [])) conn0 ≡ stop assert_failed
receive-short_example = receive-short echo4 true 1 (2 ∷ []) conn0 (omega arith) (omega arith)

pick_conn_sound_example :
    (pick_conn (conn0 ∷ []) (length (conn0 ∷ [])) (λ i. i) ≡ ok none)
    ⊎ ((idx : ℕ) × (pick_conn (conn0 ∷ []) (length (conn0 ∷ [])) (λ i. i) ≡ ok (some idx))
        × IsPicked (conn0 ∷ []) idx)
pick_conn_sound_example = pick_conn_sound (conn0 ∷ []) (λ i. i) (omega arith)

abbrev clock : Timespec
clock = record { sec = pos 5; nsec = pos 0 }

-- Three requests sent in the same second, none answered.
abbrev three_sent : PendingTxTimestamps
three_sent = record fresh_pending {
  head = 3;
  tail = 3;
  pending = λ i. record { time = record { sec = pos 5; nsec = pos i }; optid = 0 };
}

abbrev answer : Readable
answer = record {
  recv = bytes (35 ∷ 35 ∷ 35 ∷ 35 ∷ []);
  rx_timestamp = record { sec = pos 5; nsec = pos 900 };
  measure_latency = true;
  skip_latency = false;
  per_thread_samples = 8;
  measure_rx = true;
}

three_sent-IsQueue : IsQueue three_sent
three_sent-IsQueue = omega arith

match_responses-Matched_example :
    (x : Timespec) × (q : PendingTxTimestamps) × (get_elem? (waiting three_sent) (2 - 1) ≡ some x)
    × Matched answer 2 x three_sent q no_stats
match_responses-Matched_example =
    match_responses-Matched answer 2 three_sent no_stats three_sent-IsQueue (omega arith)
      (omega arith)

abbrev pub start : Thread
start = record {
  connections = conn0 ∷ [];
  per_conn_tx_timestamps = fresh_pending ∷ [];
  avail_reqs = pos 16;
  next_tx = pos 0;
  stats = no_stats;
  tx_s = record { count = 0; samples = λ _. zero_timespec };
  received_opid = 0;
  per_thread_arg = null;
}

abbrev answered : Event
answered = record { idx = 0; kind = readable answer }

-- One request is sent, and its answer arrives.
abbrev one_round : Round
one_round = record {
  load = true;
  now = pos 10;
  rand = λ i. i;
  sample = 0;
  tx_timestamp = clock;
  send = sent 4;
  measure_stamp = true;
  measure_tx = true;
  ia = pos 100;
  events = answered ∷ [];
}

abbrev rounds1 : List Round
rounds1 = one_round ∷ []

abbrev pub result_or {ℓ} : {A : Type ℓ} → A → Outcome A → A
result_or a (ok b) = b
result_or a (stop e) = a

pub start-IsInStep : IsInStep 0 (λ k. []) start
unfolding waiting
start-IsInStep = record {
  balanced = record { each = ground arith; balance = ground arith };
  linked = (
    refl,
    record {
      queue = omega arith;
      waits = omega arith;
      few = omega arith;
      logged = refl;
      history = ground arith;
    },
    tt,
  );
}

after : Thread
unfolding symmetric_run
after = result_or start (symmetric_run echo4 rounds1 start)

run_after : symmetric_run echo4 rounds1 start ≡ ok after
unfolding symmetric_run after ◌-ℤ◌ ◌+ℤ◌ timespec_diff sample_latency consume_response
    pop_pending_tx_timestamps
run_after = refl

waits_for_one :
    (t' : Thread) → symmetric_load echo4 one_round start ≡ ok t' → IsFairEvent echo4 answered t'
unfolding symmetric_load ◌-ℤ◌
waits_for_one t' e =
    subst (IsFairEvent echo4 answered) (ok-injective _ t' e) (λ c found. ground arith)

fair : FairRun echo4 rounds1 start
fair = (λ t' e. (waits_for_one t' e, λ u f. tt), λ t' e. tt)

symmetric_run-IsInStep_example : IsInStep 1 (update (λ k. []) 0 (clock ∷ [])) after
unfolding symmetric_load ◌-ℤ◌ pick_conn symmetric_round consume_response pop_pending_tx_timestamps
    sample_latency timespec_diff
symmetric_run-IsInStep_example =
    symmetric_run-IsInStep echo4 (omega arith) rounds1 0 (λ k. []) start after (omega arith) fair
      start-IsInStep run_after

-- The throughput agent in the same situation.
after_throughput : Thread
unfolding throughput_run
after_throughput = result_or start (throughput_run echo4 rounds1 start)

run_after_throughput : throughput_run echo4 rounds1 start ≡ ok after_throughput
unfolding throughput_run after_throughput ◌-ℤ◌ ◌+ℤ◌ consume_response
run_after_throughput = refl

honest_one :
    (t' : Thread) → throughput_load echo4 one_round start ≡ ok t' → IsHonestEvent echo4 answered t'
unfolding throughput_load ◌-ℤ◌
honest_one t' e =
    subst (IsHonestEvent echo4 answered) (ok-injective _ t' e) (λ c found. ground arith)

honest : HonestRun echo4 rounds1 start
honest = (λ t' e. (honest_one t' e, λ u f. tt), λ t' e. tt)

throughput_run-IsBalanced_example : IsBalancedThread after_throughput
throughput_run-IsBalanced_example =
    throughput_run-IsBalanced echo4 (omega arith) rounds1 start after_throughput honest
      start-IsInStep.balanced run_after_throughput
