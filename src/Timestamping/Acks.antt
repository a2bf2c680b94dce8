-- ===== src/Timestamping/Acks.antt =====
-- What `get_tx_timestamp` does with the message that the kernel queues for a hardware send time: the
-- time, then the acknowledged byte count in an IP_RECVERR.
use kata_load_test.Base.{
  ℕ, ◌+◌, ◌-◌, ◌^◌, ◌≤◌, ◌<◌, ◌≡◌, ◌≢◌, refl, ◌⊎◌, inl, inr, Bool, false, [], ◌∷◌, arith, ok,
  wrap32, update, mod-ne, ◌∙◌,
}
use native.Mathlib.Decide.{dec_lt}
use kata_load_test.Timespec.{Timespec, is_zero}
use kata_load_test.Timestamping.Pending.{slot, max_pending_reqs}
use kata_load_test.Timestamping.Extract.{
  NicState, stamp, stamp_coalesced, get_tx_timestamp, received, timestamping, tx_ack,
}
use kata_load_test.Timestamping.Nic.{
  Stamps, Coalesced, entry, stamp-Stamps, Stamps-trans, stamp_coalesced-Coalesced,
}

-- The bytes acknowledged, as the code compares them.
abbrev pub acked : ℕ → ℕ
acked ee_data = wrap32 (ee_data + 1)

-- The requests from the tail of `s` up to the tail of `t` have got the time `ts`.
pub record Acknowledged (ts : Timespec) (limit : ℕ) (s t : NicState) : Type 0 where
  pub progress : s.ring.tail < t.ring.tail
  pub upper : t.ring.tail ≤ s.ring.head
  pub head : t.ring.head ≡ s.ring.head
  pub consumed : t.ring.consumed ≡ s.ring.consumed
  pub written : (k : ℕ) → s.ring.tail ≤ k → k < t.ring.tail → (entry t k).time ≡ ts
  pub within : (k : ℕ) → s.ring.tail ≤ k → k < t.ring.tail → (entry s k).optid ≤ limit
  pub kept : (k : ℕ) → t.ring.tail ≤ k → k < s.ring.tail + max_pending_reqs → entry t k ≡ entry s k
  pub maximal :
      ((entry s s.ring.tail).optid ≡ limit)
      ⊎ (t.ring.tail ≡ s.ring.head)
      ⊎ (limit < (entry s t.ring.tail).optid)

-- No counter has moved, and no time but that at the tail has changed.
pub record Unmoved (s t : NicState) : Type 0 where
  pub tail : t.ring.tail ≡ s.ring.tail
  pub head : t.ring.head ≡ s.ring.head
  pub consumed : t.ring.consumed ≡ s.ring.consumed
  pub optids : (k : ℕ) → (entry t k).optid ≡ (entry s k).optid
  pub others : (k : ℕ) → slot k ≢ slot s.ring.tail → entry t k ≡ entry s k

module _ (m : Bool) (ts : Timespec) (d : ℕ) (s : NicState) (small : s.ring.head < 2 ^ 32)
    (some_sent : s.ring.tail < s.ring.head) (room : s.ring.head ≤ s.ring.tail + max_pending_reqs)
    (set : is_zero ts.sec ≡ false) where
  -- The state after the extraction, with `received_opid` at `opid`.
  timed : ℕ → NicState
  timed opid = record s {
    ring = record s.ring {
      pending =
          update s.ring.pending (slot s.ring.tail)
            (record { time = ts; optid = (entry s s.ring.tail).optid });
    };
    received_opid = opid;
  }

  timed-Acknowledged :
      (opid : ℕ) (t : NicState)
      → Stamps ts (timed opid) t
      → s.ring.tail < t.ring.tail
      → ((k : ℕ) → s.ring.tail ≤ k → k < t.ring.tail → (entry s k).optid ≤ acked d)
      → ((entry s s.ring.tail).optid ≡ acked d)
        ⊎ (t.ring.tail ≡ s.ring.head)
        ⊎ (acked d < (entry s t.ring.tail).optid)
      → Acknowledged ts (acked d) s t
  unfolding timed
  timed-Acknowledged opid t st up within maximal = record {
    progress = up;
    upper = st.upper;
    head = st.head;
    consumed = st.consumed;
    written = st.written;
    within = within;
    kept = λ k lo hi.
        st.kept k lo hi ∙ ground (arith, mod-ne 16 s.ring.tail k (omega arith) (omega arith));
    maximal = maximal;
  }

  -- The optid at the tail is the acknowledged count: that request is stamped.
  exactly :
      (entry s s.ring.tail).optid ≡ acked d
      → (t : NicState) × (get_tx_timestamp m (received 0 (timestamping ts ∷ tx_ack d ∷ [])) s
          ≡ ok (1, t))
        × Acknowledged ts (acked d) s t
  unfolding get_tx_timestamp
  exactly e =
      let t = stamp m ts (timed s.received_opid) in
      (
        t,
        unfold timed in ground (arith, set),
        timed-Acknowledged s.received_opid t
            (unfold timed in stamp-Stamps m ts (timed s.received_opid) small some_sent)
            (unfold timed in omega arith)
            (λ k lo hi.
              let here : k ≡ s.ring.tail = unfold timed in omega arith in rw here (omega arith))
            (inl e),
      )

  timed_optid : (opid k : ℕ) → (entry (timed opid) k).optid ≡ (entry s k).optid
  unfolding timed
  timed_optid opid k = ground arith

  -- It is less: that request and the following ones that are acknowledged are stamped.
  coalesced :
      (entry s s.ring.tail).optid < acked d
      → (t : NicState) × (get_tx_timestamp m (received 0 (timestamping ts ∷ tx_ack d ∷ [])) s
          ≡ ok (1, t))
        × Acknowledged ts (acked d) s t
  unfolding get_tx_timestamp
  coalesced less = (
    t,
    unfold timed in ground (arith, set),
    timed-Acknowledged d t
        (unfold timed in
          Stamps-trans (omega arith) (omega (arith, all.stamps.upper)) one all.stamps)
        (unfold timed in omega (arith, all.stamps.lower)) within maximal,
  )
    where
      first : NicState
      first = stamp m ts (timed d)

      one : Stamps ts (timed d) first
      one = unfold timed in stamp-Stamps m ts (timed d) small some_sent

      t : NicState
      t = unfold timed in stamp_coalesced (s.ring.head - first.ring.tail) m ts first

      all : Coalesced ts first t
      all =
          unfold timed in
          stamp_coalesced-Coalesced (s.ring.head - first.ring.tail) m ts first small (omega arith)
            (omega arith) (omega arith)

      first_optid : (k : ℕ) → (entry first k).optid ≡ (entry s k).optid
      first_optid k = one.optids k ∙ timed_optid d k

      within : (k : ℕ) → s.ring.tail ≤ k → k < t.ring.tail → (entry s k).optid ≤ acked d
      within k lo hi = elim (dec_lt s.ring.tail k) [
        | yes later ↦
            unfold timed in omega (arith, all.acknowledged k (omega arith) hi, first_optid k)
        | no first_one ↦ let here : k ≡ s.ring.tail = omega arith in rw here (omega arith)
      ]

      maximal :
          ((entry s s.ring.tail).optid ≡ acked d)
          ⊎ (t.ring.tail ≡ s.ring.head)
          ⊎ (acked d < (entry s t.ring.tail).optid)
      maximal =
          unfold timed in
          ground (
            arith,
            all.ended,
            all.stamps.opid,
            all.stamps.head,
            all.stamps.upper,
            all.stamps.optids t.ring.tail,
            first_optid t.ring.tail,
          )

  -- It is greater: the message is about an earlier request.
  outdated :
      acked d < (entry s s.ring.tail).optid
      → (get_tx_timestamp m (received 0 (timestamping ts ∷ tx_ack d ∷ [])) s
          ≡ ok (0, timed s.received_opid))
        × Unmoved s (timed s.received_opid)
  unfolding get_tx_timestamp timed
  outdated more = (
    ground (arith, set),
    record {
      tail = refl;
      head = refl;
      consumed = refl;
      optids = λ k. ground arith;
      others = λ k ne. ground arith;
    },
  )

  -- For a hardware time that is set and the byte count that it acknowledges, with at least one and
  -- at most 16 requests waiting for their times and fewer than 2^32 sent: if the first one waiting is not beyond the count, the result is
  -- 1, the time goes to that request and to following ones, all of them within the count, and it
  -- stops only at the exact count, at the last request sent, or before a request beyond the count;
  -- the other requests waiting keep their entries. Otherwise the result is 0 and no counter moves.
  pub get_tx_timestamp-acknowledges :
      (r : ℕ) × (t : NicState) × (get_tx_timestamp m
          (received 0 (timestamping ts ∷ tx_ack d ∷ []))
          s
        ≡ ok (r, t))
      × (((r ≡ 1) × ((entry s s.ring.tail).optid ≤ acked d) × Acknowledged ts (acked d) s t)
          ⊎ ((r ≡ 0) × (acked d < (entry s s.ring.tail).optid) × Unmoved s t))
  get_tx_timestamp-acknowledges = elim (dec_lt (acked d) (entry s s.ring.tail).optid) [
    | yes more ↦
        let (run, kept) = outdated more in (0, timed s.received_opid, run, inr (refl, more, kept))
    | no upto ↦ elim (dec_lt (entry s s.ring.tail).optid (acked d)) [
      | yes less ↦ let (t, run, done) = coalesced less in (1, t, run, inl (refl, omega arith, done))
      | no eq ↦
          let (t, run, done) = exactly (omega arith) in (1, t, run, inl (refl, omega arith, done))
    ]
  ]
