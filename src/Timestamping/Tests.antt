-- ===== src/Timestamping/Tests.antt =====
-- A connection's send times, in user space and from the kernel.
use kata_load_test.Base.{◌≡◌, ◌≤◌, ◌<◌, ℕ, refl, ◌⊎◌, true, none, some, List, [], ◌∷◌, arith, ok}
use kata_load_test.Base.Int.{pos}
use kata_load_test.Timespec.{Timespec, zero_timespec}
use kata_load_test.Stats.State.{TxSamples}
use kata_load_test.Timestamping.Pending.{
  fresh_pending, add_pending_tx_timestamp, push_complete_tx_timestamp, blind_skip_tx_timestamps,
  pop_pending_tx_timestamps,
}
use kata_load_test.Timestamping.Queue.{IsQueue, waiting}
use kata_load_test.Timestamping.Runs.{Op, push, skip, pop, run, queue_run, run_refines}
use kata_load_test.Timestamping.Extract.{
  NicState, received, timestamping, tx_ack, get_tx_timestamp, stamp_coalesced,
}
use kata_load_test.Timestamping.Nic.{entry, Coalesced, stamp_coalesced-Coalesced}
use kata_load_test.Timestamping.Acks.{acked, Acknowledged, Unmoved, get_tx_timestamp-acknowledges}

abbrev no_times : TxSamples
no_times = record { count = 0; samples = λ _. zero_timespec }

abbrev early : Timespec
early = record { sec = pos 5; nsec = pos 0 }

abbrev late : Timespec
late = record { sec = pos 6; nsec = pos 0 }

fresh_pending-IsQueue : IsQueue fresh_pending
fresh_pending-IsQueue = omega arith

-- The pop after a skip finds the later time, and then there is none.
abbrev three_ops : List Op
three_ops = push early ∷ push late ∷ skip 1 ∷ pop ∷ pop ∷ []

queue_run_three : queue_run three_ops (waiting fresh_pending) ≡ some (some late ∷ none ∷ [])
unfolding queue_run waiting
queue_run_three = refl

run_refines_example : run true three_ops fresh_pending no_times ≡ ok (some late ∷ none ∷ [])
run_refines_example =
    run_refines true three_ops fresh_pending no_times (some late ∷ none ∷ []) fresh_pending-IsQueue
      (omega arith) queue_run_three

-- The same, by the operations of the ring.
run_three : run true three_ops fresh_pending no_times ≡ ok (some late ∷ none ∷ [])
unfolding run push_complete_tx_timestamp blind_skip_tx_timestamps pop_pending_tx_timestamps
run_three = refl

-- Two requests of 100 bytes wait for their hardware send times.
abbrev two_sent : NicState
unfolding add_pending_tx_timestamp
two_sent = record {
  ring = add_pending_tx_timestamp 100 (add_pending_tx_timestamp 100 fresh_pending);
  tx_s = no_times;
  received_opid = 199;
}

stamp_coalesced-Coalesced_example : Coalesced early two_sent (stamp_coalesced 2 true early two_sent)
unfolding two_sent
stamp_coalesced-Coalesced_example =
    stamp_coalesced-Coalesced 2 true early two_sent (omega arith) (omega arith) (omega arith)
      (omega arith)

-- The kernel acknowledges both at once.
get_tx_timestamp-acknowledges_example :
    (r : ℕ) × (t : NicState) × (get_tx_timestamp true
        (received 0 (timestamping early ∷ tx_ack 199 ∷ []))
        two_sent
      ≡ ok (r, t))
    × (((r ≡ 1)
          × ((entry two_sent two_sent.ring.tail).optid ≤ acked 199)
          × Acknowledged early (acked 199) two_sent t)
        ⊎ ((r ≡ 0) × (acked 199 < (entry two_sent two_sent.ring.tail).optid) × Unmoved two_sent t))
unfolding two_sent
get_tx_timestamp-acknowledges_example =
    get_tx_timestamp-acknowledges true early 199 two_sent (omega arith) (omega arith) (omega arith)
      refl
