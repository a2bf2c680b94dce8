-- ===== src/Tcp/Symmetric/Log.antt =====
-- The requests that a run of `symmetric_tcp_main` sends, counted and with their times, apart from the
-- rings of the code.
use kata_load_test.Base.{
  ℕ, ◌+◌, not, Option, none, some, List, [], ◌∷◌, ◌++◌, if◌then◌else◌, length, update, Outcome, ok,
  stop,
}
use kata_load_test.Base.Int.{pos, ◌-ℤ◌, ltb_ℤ}
use kata_load_test.Timespec.{Timespec}
use kata_load_test.AppProto.Response.{AppProto}
use kata_load_test.Tcp.Connection.{pick_conn}
use kata_load_test.Tcp.Balance.{picked_one, going_on}
use kata_load_test.Tcp.Thread.{Thread, Round}
use kata_load_test.Tcp.Symmetric.{symmetric_round}

-- The connection that a round picks, if it loads and the next request is due.
abbrev pub round_pick : Round → Thread → Outcome (Option ℕ)
round_pick r t =
    if not r.load
    then ok none
    else if ltb_ℤ (r.now -ℤ t.next_tx) (pos 0)
    then ok none
    else pick_conn t.connections (length t.connections) r.rand

abbrev pub round_sends : Round → Thread → ℕ
round_sends r t = picked_one (round_pick r t)

abbrev pub run_sends : AppProto → List Round → Thread → ℕ
run_sends proto [] t = 0
run_sends proto (r ∷ rounds) t =
    round_sends r t + going_on (symmetric_round proto r t) 0 (run_sends proto rounds)

-- The send times of each connection, oldest first, with one more on the connection that is picked.
abbrev pub with_time : Timespec → Outcome (Option ℕ) → (ℕ → List Timespec) → ℕ → List Timespec
with_time ts (ok none) log = log
with_time ts (ok (some idx)) log = update log idx (log idx ++ ts ∷ [])
with_time ts (stop e) log = log

abbrev pub round_log : Round → Thread → (ℕ → List Timespec) → ℕ → List Timespec
round_log r t log = with_time r.tx_timestamp (round_pick r t) log

abbrev pub run_log : AppProto → List Round → Thread → (ℕ → List Timespec) → ℕ → List Timespec
run_log proto [] t log = log
run_log proto (r ∷ rounds) t log =
    going_on (symmetric_round proto r t) (round_log r t log)
      (λ t'. run_log proto rounds t' (round_log r t log))
