-- ===== src/Timestamping/Pending.antt =====
-- `struct pending_tx_timestamps`, and the operations that do not ask the kernel.
use kata_load_test.Base.{
  ℕ, ◌+◌, ◌%◌, Bool, Option, none, some, if◌then◌else◌, ltb, leb, update, wrap32, Outcome, ok, ◌>>◌,
  assert,
}
use kata_load_test.Timespec.{Timespec, zero_timespec}
use kata_load_test.Stats.State.{TxSamples}
use kata_load_test.Stats.Samples.{add_tx_timestamp}

-- of lancet/inc/lancet/tp_proto.h
abbrev pub max_pending_reqs : ℕ
max_pending_reqs = 16

pub record TimestampInfo : Type 0 where
  pub time : Timespec
  pub optid : ℕ

-- `pending` is a ring of `max_pending_reqs` entries; the four counters are uint32_t.
pub record PendingTxTimestamps : Type 0 where
  pub tx_byte_counter : ℕ
  pub head : ℕ
  pub tail : ℕ
  pub consumed : ℕ
  pub pending : ℕ → TimestampInfo

abbrev pub zero_info : TimestampInfo
zero_info = record { time = zero_timespec; optid = 0 }

-- As `calloc` makes it.
abbrev pub fresh_pending : PendingTxTimestamps
fresh_pending = record {
  tx_byte_counter = 0;
  head = 0;
  tail = 0;
  consumed = 0;
  pending = λ _. zero_info;
}

-- The slot of a counter.
abbrev pub slot : ℕ → ℕ
slot n = n % max_pending_reqs

unfoldable pub add_pending_tx_timestamp : ℕ → PendingTxTimestamps → PendingTxTimestamps
add_pending_tx_timestamp bytes p =
    let counter = wrap32 (p.tx_byte_counter + bytes) in
    record p {
      tx_byte_counter = counter;
      head = wrap32 (p.head + 1);
      pending =
          update p.pending (slot p.head)
            (record { time = (p.pending (slot p.head)).time; optid = counter });
    }

-- What a caller reads through the returned pointer before the ring changes again; `none` is a null
-- pointer.
unfoldable pub pop_pending_tx_timestamps :
    PendingTxTimestamps → Outcome (Option TimestampInfo × PendingTxTimestamps)
pop_pending_tx_timestamps p = do
  assert (leb p.consumed p.head)
  ok (
      if ltb p.consumed p.tail
      then (some (p.pending (slot p.consumed)), record p { consumed = wrap32 (p.consumed + 1) })
      else (none, p))

-- `to_skip` is an int that the callers compute as `reqs - 1` for `reqs > 1`: not negative.
unfoldable pub blind_skip_tx_timestamps : ℕ → PendingTxTimestamps → PendingTxTimestamps
blind_skip_tx_timestamps to_skip p =
    if ltb 0 to_skip then record p { consumed = wrap32 (p.consumed + to_skip) } else p

-- The time goes to the thread's `tx_s` too.
unfoldable pub push_complete_tx_timestamp :
    Bool → Timespec → PendingTxTimestamps → TxSamples → PendingTxTimestamps × TxSamples
unfolding add_tx_timestamp
push_complete_tx_timestamp measure to_add p t = (
  record p {
    head = wrap32 (p.head + 1);
    tail = wrap32 (p.tail + 1);
    pending =
        update p.pending (slot p.tail)
          (record { time = to_add; optid = (p.pending (slot p.tail)).optid });
  },
  add_tx_timestamp measure to_add t,
)
