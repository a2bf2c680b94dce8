-- ===== src/Tcp/Tests/Latency.antt =====
-- The latency agent on one connection that speaks the echo protocol.
use kata_load_test.Base.{ok, ◌≡◌, refl, true, false, List, [], ◌∷◌, arith}
use kata_load_test.Base.Int.{pos, ◌+ℤ◌}
use kata_load_test.AppProto.Response.{consume_response}
use kata_load_test.Tcp.Connection.{sent, bytes, pick_conn}
use kata_load_test.Tcp.Thread.{Thread}
use kata_load_test.Tcp.Latency.{LatencyRound, latency_run, latency_round}
use kata_load_test.Tcp.Latency.Answer.{IsRecorded, latency_round-answers}
use kata_load_test.Tcp.Balance.{IsPicked}
use kata_load_test.AppProto.Request.{create_request}
use kata_load_test.Tcp.Latency.Counts.{IsLedger}
use kata_load_test.Tcp.Latency.Run.{latency_run-IsLedger}
use kata_load_test.Tcp.Tests.{echo4, start, result_or}

-- One request is sent and answered, and the next finds the connection closed.
abbrev one_answer : LatencyRound
one_answer = record {
  load = true;
  now = pos 10;
  rand = λ i. i;
  start_time = pos 11;
  sample = 0;
  send = sent 4;
  measure_tx = true;
  recv = bytes (35 ∷ 35 ∷ 35 ∷ 35 ∷ []);
  end_time = pos 19;
  measure_rx = true;
  measure_latency = true;
  skip_latency = false;
  per_thread_samples = 8;
  ia = pos 0;
}

abbrev two_rounds : List LatencyRound
two_rounds = one_answer ∷ record one_answer { recv = bytes [] } ∷ []

latency_run-IsLedger_example :
    IsLedger 0 (result_or start (latency_run echo4 two_rounds start))
    × ((result_or start (latency_run echo4 two_rounds start)).stats.th_s.tx.reqs ≡ 2)
unfolding latency_run consume_response ◌+ℤ◌
latency_run-IsLedger_example =
    latency_run-IsLedger echo4 two_rounds start
      (result_or start (latency_run echo4 two_rounds start))
      ((refl, refl, refl), ((refl, refl, refl), tt)) (record { balance = refl; few = omega arith })
      (omega arith) refl

latency_round-answers_example :
    (t' : Thread) × (latency_round echo4 one_answer start ≡ ok t')
    × IsPicked start.connections 0
    × IsRecorded 8 4 4 4 8 start.stats t'.stats
    × (t'.next_tx ≡ start.next_tx +ℤ pos 0)
unfolding pick_conn create_request
latency_round-answers_example =
    latency_round-answers echo4 one_answer 0 11 19 start 35 (35 ∷ 35 ∷ 35 ∷ [])
      (record {
        start = refl;
        end = refl;
        ordered = omega arith;
        small = omega arith;
        tx = refl;
        rx = refl;
        latency = refl;
        sampled = refl;
        per_thread = omega arith;
      })
      refl refl refl refl refl (omega arith) refl (omega arith) (omega arith)
