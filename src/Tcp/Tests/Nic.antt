-- ===== src/Tcp/Tests/Nic.antt =====
-- The NIC agent on one connection that speaks the echo protocol.
use kata_load_test.Base.{ℕ, ◌≡◌, refl, subst, true, false, List, [], ◌∷◌, arith, ok, ok-injective}
use kata_load_test.Base.Int.{pos, ◌-ℤ◌, ◌+ℤ◌, ◌*ℤ◌}
use kata_load_test.Timespec.{timespec_diff, zero_timespec}
use kata_load_test.Timestamping.Pending.{pop_pending_tx_timestamps}
use kata_load_test.Timestamping.Extract.{received, timestamping, tx_ack}
use kata_load_test.AppProto.Response.{consume_response}
use kata_load_test.Tcp.Connection.{sent, bytes}
use kata_load_test.Tcp.Thread.{Thread}
use kata_load_test.Tcp.Throughput.Invariant.{IsBalancedThread}
use kata_load_test.Tcp.Nic.{
  Attempt, NicReadable, nic_readable, NicEvent, NicRound, nic_sends, nic_load, nic_run,
}
use kata_load_test.Tcp.Nic.Invariant.{IsEnded, nic_sends-IsEnded}
use kata_load_test.Tcp.Nic.Run.{IsCalmEvent, CalmRun, nic_run-IsBalancedThread}
use kata_load_test.Tcp.Tests.{echo4, start, result_or, start-IsInStep}

-- The NIC agent is late once: it sends a request, and then it is early.
abbrev attempts1 : ℕ → Attempt
attempts1 i = record {
  now = pos 10;
  rand = λ j. j;
  sample = 0;
  send = sent 4;
  measure_tx = true;
  ia = pos 100;
}

after_sends : Thread
unfolding nic_sends
after_sends = result_or start (nic_sends 17 echo4 attempts1 0 start)

run_after_sends : nic_sends 17 echo4 attempts1 0 start ≡ ok after_sends
unfolding nic_sends after_sends ◌-ℤ◌ ◌+ℤ◌
run_after_sends = refl

nic_sends-IsEnded_example : IsEnded attempts1 after_sends × IsBalancedThread after_sends
nic_sends-IsEnded_example =
    nic_sends-IsEnded 17 0 echo4 attempts1 start after_sends start-IsInStep.balanced (omega arith)
      run_after_sends

-- The answer arrives before the send time, which is then found in the error queue.
abbrev nic_answer : NicReadable
nic_answer = record {
  recv = bytes (35 ∷ 35 ∷ 35 ∷ 35 ∷ []);
  cmsgs = timestamping (record { sec = pos 5; nsec = pos 900 }) ∷ [];
  stale_rx = zero_timespec;
  errors = received 0 (timestamping (record { sec = pos 5; nsec = pos 100 }) ∷ tx_ack 3 ∷ []);
  measure_stamp = true;
  measure_latency = true;
  skip_latency = false;
  per_thread_samples = 8;
  measure_rx = true;
}

abbrev nic_answered : NicEvent
nic_answered = record { idx = 0; kind = nic_readable nic_answer }

abbrev nic_rounds1 : List NicRound
nic_rounds1 =
    record { load = true; idle_now = pos 0; attempts = attempts1; events = nic_answered ∷ [] } ∷ []

after_nic : Thread
unfolding nic_run
after_nic = result_or start (nic_run echo4 nic_rounds1 start)

run_after_nic : nic_run echo4 nic_rounds1 start ≡ ok after_nic
unfolding nic_run after_nic ◌-ℤ◌ ◌+ℤ◌ ◌*ℤ◌ timespec_diff consume_response pop_pending_tx_timestamps
run_after_nic = refl

calm_answer :
    (t' : Thread)
    → nic_load echo4
        (record { load = true; idle_now = pos 0; attempts = attempts1; events = nic_answered ∷ [] })
        start
      ≡ ok t'
    → IsCalmEvent echo4 nic_answered t'
unfolding nic_load ◌-ℤ◌ ◌+ℤ◌
calm_answer t' e =
    subst (IsCalmEvent echo4 nic_answered) (ok-injective _ t' e) (λ c found. ground arith)

calm : CalmRun echo4 nic_rounds1 start
calm = (λ t' e. (calm_answer t' e, λ u f. tt), λ t' e. tt)

nic_run-IsBalancedThread_example : IsBalancedThread after_nic
nic_run-IsBalancedThread_example =
    nic_run-IsBalancedThread echo4 (omega arith) nic_rounds1 start after_nic calm
      start-IsInStep.balanced run_after_nic
