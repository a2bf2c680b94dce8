-- ===== src/Timestamping/Extract.antt =====
-- `extract_timestamps` and `get_tx_timestamp` of lancet/agents/timestamping.c: hardware send times,
-- read from the socket's error queue.
use kata_load_test.Base.{
  ℕ, zero, suc, ◌+◌, ◌-◌, Bool, true, false, ◌&&◌, not, List, [], ◌∷◌, if◌then◌else◌, ltb, leb,
  ◌==◌, update, wrap32, Outcome, ok, ◌>>=◌, ◌>>◌, assert,
}
use kata_load_test.Timespec.{Timespec, is_zero}
use kata_load_test.Stats.State.{TxSamples}
use kata_load_test.Stats.Samples.{add_tx_timestamp}
use kata_load_test.Timestamping.Pending.{TimestampInfo, PendingTxTimestamps, slot, zero_info}

-- A control message, as the kernel delivers it: `timestamping` is SCM_TIMESTAMPING with the hardware
-- time `ts[2]`; `tx_ack` an IP_RECVERR with ENOMSG and SO_EE_ORIGIN_TIMESTAMPING, and its `ee_data`;
-- `other_error` any other IP_RECVERR; `other` any other type.
pub data Cmsg : Type 0 where
  timestamping : Timespec → Cmsg
  tx_ack : ℕ → Cmsg
  other_error other : Cmsg

-- The return value: -1, 0 and 1.
pub data Found : Type 0 where
  missing mismatch matched : Found

-- The variables of the loop: `dest` points to `dest_time` and an `optid` that is not written;
-- `received_opid` is a thread-local int, of which the bit pattern is kept.
pub record Extraction : Type 0 where
  pub dest : TimestampInfo
  pub received_opid : ℕ
  pub found : Found

abbrev pub is_missing : Found → Bool
is_missing missing = true
is_missing mismatch = false
is_missing matched = false

-- `ee_data + 1` is a uint32_t.
abbrev pub acknowledge : ℕ → Extraction → Extraction
acknowledge ee_data x =
    if ltb x.dest.optid (wrap32 (ee_data + 1))
    then record x { found = mismatch; received_opid = ee_data }
    else if ltb (wrap32 (ee_data + 1)) x.dest.optid
    then record x { found = missing }
    else record x { found = matched }

-- One round of the loop over the control messages.
unfoldable pub extract_one : Cmsg → Extraction → Outcome Extraction
extract_one (timestamping ts) x =
    if not (is_zero ts.sec)
    then (do
      assert (is_missing x.found)
      ok (record x { dest = record { time = ts; optid = x.dest.optid }; found = matched }))
    else ok x
extract_one (tx_ack ee_data) x = ok (acknowledge ee_data x)
extract_one other_error x = ok x
extract_one other x = ok x

unfoldable pub extract_all : List Cmsg → Extraction → Outcome Extraction
unfolding extract_one
extract_all [] x = ok x
extract_all (c ∷ cs) x = extract_one c x >>= extract_all cs

unfoldable pub extract_timestamps : List Cmsg → TimestampInfo → ℕ → Outcome Extraction
unfolding extract_all
extract_timestamps cmsgs dest received_opid =
    extract_all cmsgs (record { dest = dest; received_opid = received_opid; found = missing })

-- What `recvmsg(sockfd, &mhdr, MSG_ERRQUEUE)` gives: a negative value, or a length with the control
-- messages.
pub data ErrQueue : Type 0 where
  nothing : ErrQueue
  received : ℕ → List Cmsg → ErrQueue

-- What `get_tx_timestamp` changes: the connection's ring, and the thread's `tx_s` and
-- `received_opid`.
pub record NicState : Type 0 where
  pub ring : PendingTxTimestamps
  pub tx_s : TxSamples
  pub received_opid : ℕ

-- The test of the loop over coalesced requests. (`received_opid+1` becomes unsigned.)
abbrev pub is_coalesced : NicState → Bool
is_coalesced s =
    leb (s.ring.pending (slot s.ring.tail)).optid (wrap32 (s.received_opid + 1))
    && ltb s.ring.tail s.ring.head

-- `ts_info->time = time; add_tx_timestamp(&ts_info->time); tail++`, at the tail's slot.
abbrev pub stamp : Bool → Timespec → NicState → NicState
stamp measure time s = record s {
  ring = record s.ring {
    tail = wrap32 (s.ring.tail + 1);
    pending =
        update s.ring.pending (slot s.ring.tail)
          (record { time = time; optid = (s.ring.pending (slot s.ring.tail)).optid });
  };
  tx_s = add_tx_timestamp measure time s.tx_s;
}

-- `curr` points to the entry that was stamped before the loop, whose time is `time`. Each round
-- raises the tail, which stays at or below the head: `head - tail` rounds are enough.
unfoldable pub stamp_coalesced : ℕ → Bool → Timespec → NicState → NicState
stamp_coalesced zero measure time s = s
stamp_coalesced (suc fuel) measure time s = elim (is_coalesced s) [
  | true ↦ stamp_coalesced fuel measure time (stamp measure time s)
  | false ↦ s
]

-- After a successful `recvmsg`. The extraction writes the time of the entry at the tail also where
-- it finds no match.
abbrev pub stamp_found : Bool → NicState → Extraction → ℕ × NicState
stamp_found measure s x =
    let s' : NicState = record s {
      ring = record s.ring { pending = update s.ring.pending (slot s.ring.tail) x.dest };
      received_opid = x.received_opid;
    } in
    let stamped : NicState = stamp measure x.dest.time s' in
    elim x.found [
      | missing ↦ (0, s')
      | matched ↦ (1, stamped)
      | mismatch ↦
          (1, stamp_coalesced (s.ring.head - stamped.ring.tail) measure x.dest.time stamped)
    ]

-- The result is 1 if a timestamp was found, else 0.
unfoldable pub get_tx_timestamp : Bool → ErrQueue → NicState → Outcome (ℕ × NicState)
unfolding extract_timestamps stamp_coalesced add_tx_timestamp
get_tx_timestamp measure nothing s = ok (0, s)
get_tx_timestamp measure (received n cmsgs) s = do
  assert (n == 0)
  x ← extract_timestamps cmsgs (s.ring.pending (slot s.ring.tail)) s.received_opid
  ok (stamp_found measure s x)

-- After a `recvmsg` of at least one byte in `timestamp_recv`: the receive time, zero if the message
-- has none, and the thread's `received_opid`.
unfoldable pub timestamp_recv : List Cmsg → ℕ → Outcome (Timespec × ℕ)
unfolding extract_timestamps
timestamp_recv cmsgs received_opid = do
  x ← extract_timestamps cmsgs zero_info received_opid
  ok (x.dest.time, x.received_opid)
