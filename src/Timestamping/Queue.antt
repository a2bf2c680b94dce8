-- ===== src/Timestamping/Queue.antt =====
-- The user-space timestamps of one connection (`symmetric_tcp_main`) are a first-in first-out queue
-- of send times.
use kata_load_test.Base.{
  ℕ, zero, suc, ◌+◌, ◌-◌, ◌^◌, ◌≤◌, ◌<◌, ◌≡◌, refl, Bool, Option, none, some, List, [], ◌∷◌, ◌++◌,
  arith, drop, length, slice, slice-snoc, slice-cong, drop-slice, length-slice, slice-cons, mod-ne,
  ok, wrap32, update,
}
use native.Mathlib.Decide.{dec_lt}
use kata_load_test.Timespec.{Timespec}
use kata_load_test.Stats.State.{TxSamples}
use kata_load_test.Timestamping.Pending.{
  PendingTxTimestamps, TimestampInfo, max_pending_reqs, slot, pop_pending_tx_timestamps,
  blind_skip_tx_timestamps, push_complete_tx_timestamp,
}

-- Nothing is sent that is not yet stamped, no more is waiting than the ring holds, and fewer than
-- 2^32 requests have been sent.
pub record IsQueue (p : PendingTxTimestamps) : Type 0 where
  pub stamped : p.tail ≡ p.head
  pub ordered : p.consumed ≤ p.tail
  pub bounded : p.tail ≤ p.consumed + max_pending_reqs
  pub small : p.head < 2 ^ 32

-- The send time of request `k`.
abbrev pub time_at : PendingTxTimestamps → ℕ → Timespec
time_at p k = (p.pending (slot k)).time

-- The send times waiting for their responses, oldest first.
unfoldable pub waiting : PendingTxTimestamps → List Timespec
waiting p = slice (time_at p) p.consumed (p.tail - p.consumed)

pub length-waiting :
    (p : PendingTxTimestamps) → IsQueue p → p.consumed + length (waiting p) ≡ p.tail
unfolding waiting
length-waiting p v = omega (arith, length-slice (time_at p) p.consumed (p.tail - p.consumed))

module _ (ts : Timespec) (p : PendingTxTimestamps) (v : IsQueue p)
    (room : p.tail < p.consumed + max_pending_reqs) where
  stamped_info : TimestampInfo
  stamped_info = record { time = ts; optid = (p.pending (slot p.tail)).optid }

  -- The write does not touch the entries that are waiting.
  slice-update :
      slice
        (λ k. (update p.pending (slot p.tail) stamped_info (slot k)).time)
        p.consumed
        (p.tail - p.consumed)
      ≡ waiting p
  unfolding waiting stamped_info
  slice-update =
      slice-cong _ (time_at p) p.consumed (p.tail - p.consumed)
        λ k lo hi. ground (arith, mod-ne 16 k p.tail (omega arith) (omega arith))

  -- A push onto a queue that is not full appends the time.
  pub waiting-push :
      (m : Bool) (t : TxSamples)
      → p.head + 1 < 2 ^ 32
      → let q = (push_complete_tx_timestamp m ts p t).0 in
        IsQueue q
        × (waiting q ≡ waiting p ++ ts ∷ [])
        × (q.consumed ≡ p.consumed)
        × (q.head ≡ p.head + 1)
  unfolding waiting push_complete_tx_timestamp stamped_info
  waiting-push m t small =
      let n : ℕ = p.tail - p.consumed in
      let e : wrap32 (p.tail + 1) - p.consumed ≡ n + 1 = omega arith in
      let f : ℕ → Timespec = λ k. (update p.pending (slot p.tail) stamped_info (slot k)).time in
      (omega arith, ground (arith, e, slice-snoc f p.consumed n, slice-update), refl, omega arith)

-- Skipping `n` waiting entries drops them.
pub waiting-skip :
    (n : ℕ) (p : PendingTxTimestamps)
    → IsQueue p
    → p.consumed + n ≤ p.tail
    → let q = blind_skip_tx_timestamps n p in
      IsQueue q
      × (waiting q ≡ drop n (waiting p))
      × (q.consumed ≡ p.consumed + n)
      × (q.head ≡ p.head)
unfolding waiting blind_skip_tx_timestamps
waiting-skip zero p v le = ground arith
waiting-skip (suc n) p v le =
    ground (arith, drop-slice (time_at p) p.consumed (suc n) (p.tail - p.consumed))

abbrev pub fifo_pop : List Timespec → Option Timespec × List Timespec
fifo_pop [] = (none, [])
fifo_pop (x ∷ q) = (some x, q)

abbrev pub popped_time : Option TimestampInfo → Option Timespec
popped_time none = none
popped_time (some i) = some i.time

abbrev pub consumed_by : Option TimestampInfo → ℕ
consumed_by none = 0
consumed_by (some i) = 1

-- A pop takes the oldest entry, if there is one.
pub waiting-pop :
    (p : PendingTxTimestamps)
    → IsQueue p
    → (i : Option TimestampInfo) × (q : PendingTxTimestamps) × (pop_pending_tx_timestamps p
        ≡ ok (i, q))
      × IsQueue q
      × ((popped_time i, waiting q) ≡ fifo_pop (waiting p))
      × (q.consumed ≡ p.consumed + consumed_by i)
      × (q.head ≡ p.head)
unfolding waiting pop_pending_tx_timestamps
waiting-pop p v = elim (dec_lt p.consumed p.tail) [
  | yes some_left ↦ (
    some (p.pending (slot p.consumed)),
    record p { consumed = p.consumed + 1 },
    ground arith,
    omega arith,
    ground (arith, slice-cons (time_at p) p.consumed (p.tail - p.consumed) (omega arith)),
    omega arith,
    refl,
  )
  | no empty ↦
      let e : p.tail - p.consumed ≡ 0 = omega arith in
      (none, p, ground arith, v, ground (arith, e), omega arith, refl)
]
