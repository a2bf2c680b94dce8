-- ===== src/Timestamping/Runs.antt =====
-- Any sequence of operations on a connection's user-space timestamps, against the queue of 16
-- entries that it stands for.
use kata_load_test.Base.{
  ℕ, suc, ◌+◌, ◌^◌, ◌<◌, ◌≡◌, Bool, Option, none, some, List, [], ◌∷◌, ◌++◌, arith, drop, length,
  leb, ltb, if◌then◌else◌, Outcome, ok, ◌>>=◌, Bool-cases, Option-cases, inl, inr,
}
use kata_load_test.Timespec.{Timespec}
use kata_load_test.Stats.State.{TxSamples}
use kata_load_test.Timestamping.Pending.{
  PendingTxTimestamps, max_pending_reqs, pop_pending_tx_timestamps, blind_skip_tx_timestamps,
  push_complete_tx_timestamp,
}
use kata_load_test.Timestamping.Queue.{
  IsQueue, waiting, waiting-push, waiting-skip, waiting-pop, fifo_pop, popped_time, length-waiting,
}

pub data Op : Type 0 where
  push : Timespec → Op
  skip : ℕ → Op
  pop : Op

-- The operations one after another, with what each pop returns.
unfoldable pub run :
    Bool → List Op → PendingTxTimestamps → TxSamples → Outcome (List (Option Timespec))
run m [] p t = ok []
run m (push ts ∷ ops) p t = let (q, t') = push_complete_tx_timestamp m ts p t in run m ops q t'
run m (skip n ∷ ops) p t = run m ops (blind_skip_tx_timestamps n p) t
run m (pop ∷ ops) p t = do
  (i, q) ← pop_pending_tx_timestamps p
  rest ← run m ops q t
  ok (popped_time i ∷ rest)

-- The same on a queue; `none` if a push finds it full or a skip finds too few entries.
unfoldable pub queue_run : List Op → List Timespec → Option (List (Option Timespec))
queue_run [] q = some []
queue_run (push ts ∷ ops) q =
    let rest = queue_run ops (q ++ ts ∷ []) in
    if ltb (length q) max_pending_reqs then rest else none
queue_run (skip n ∷ ops) q =
    let rest = queue_run ops (drop n q) in if leb n (length q) then rest else none
queue_run (pop ∷ ops) q = elim (queue_run ops (fifo_pop q).1) [
  | none ↦ none
  | some rest ↦ some ((fifo_pop q).0 ∷ rest)
]

-- How many requests the operations send.
abbrev pub pushes : List Op → ℕ
pushes [] = 0
pushes (push ts ∷ ops) = suc (pushes ops)
pushes (skip n ∷ ops) = pushes ops
pushes (pop ∷ ops) = pushes ops

-- Whatever sequence of operations the bounded queue allows, a well-formed ring does the same: no assertion
-- fails and every pop returns what the queue's pop returns, as long as the requests that are sent,
-- with those before, are fewer than 2^32.
pub run_refines :
    (m : Bool) (ops : List Op) (p : PendingTxTimestamps) (t : TxSamples)
    (out : List (Option Timespec))
    → IsQueue p
    → p.head + pushes ops < 2 ^ 32
    → queue_run ops (waiting p) ≡ some out
    → run m ops p t ≡ ok out
unfolding run queue_run
run_refines m [] p t out v small e = ground arith
run_refines m (push ts ∷ ops) p t out v small e = elim (Bool-cases (ltb (length (waiting p)) 16)) [
  | inl room ↦
      let len = length-waiting p v in
      let step = waiting-push ts p v (ground (arith, len)) m t (omega arith) in
      let q = push_complete_tx_timestamp m ts p t in
      run_refines m ops q.0 q.1 out step.0 (omega (arith, step.3)) (rw step.1 (ground arith))
  | inr full ↦ absurd (ground arith)
]
run_refines m (skip n ∷ ops) p t out v small e = elim (Bool-cases (leb n (length (waiting p)))) [
  | inl enough ↦
      let len = length-waiting p v in
      let step = waiting-skip n p v (ground (arith, len)) in
      run_refines m ops (blind_skip_tx_timestamps n p) t out step.0 (omega (arith, step.3))
        (rw step.1 (ground arith))
  | inr few ↦ absurd (ground arith)
]
run_refines m (pop ∷ ops) p t out v small e =
    let (i, q, done, vq, same, _, kept) = waiting-pop p v in
    elim (Option-cases (queue_run ops (waiting q))) [
      | inl refused ↦ absurd (ground arith)
      | inr (later, more) ↦
          rw done (rw (run_refines m ops q t later vq (omega arith) more) (ground arith))
    ]
