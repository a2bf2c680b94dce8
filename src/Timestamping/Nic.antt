-- ===== src/Timestamping/Nic.antt =====
-- What `get_tx_timestamp` does to a connection's ring.
use kata_load_test.Base.{
  ℕ, zero, suc, ◌+◌, ◌^◌, ◌≤◌, ◌<◌, ◌≡◌, refl, ap, ◌∙◌, subst, Bool, false, arith, wrap32,
  Bool-cases, inl, inr, mod-ne,
}
use native.Mathlib.Decide.{dec_lt}
use kata_load_test.Timespec.{Timespec}
use kata_load_test.Timestamping.Pending.{TimestampInfo, slot, max_pending_reqs}
use kata_load_test.Timestamping.Extract.{NicState, is_coalesced, stamp, stamp_coalesced}

abbrev pub entry : NicState → ℕ → TimestampInfo
entry s k = s.ring.pending (slot k)

-- The requests between the tails of `s` and `t` have got the time `time`. The entries from the tail
-- of `t` on, and the optids, are as before; so are head and consumed.
pub record Stamps (time : Timespec) (s t : NicState) : Type 0 where
  pub lower : s.ring.tail ≤ t.ring.tail
  pub upper : t.ring.tail ≤ s.ring.head
  pub head : t.ring.head ≡ s.ring.head
  pub consumed : t.ring.consumed ≡ s.ring.consumed
  pub opid : t.received_opid ≡ s.received_opid
  pub written : (k : ℕ) → s.ring.tail ≤ k → k < t.ring.tail → (entry t k).time ≡ time
  pub optids : (k : ℕ) → (entry t k).optid ≡ (entry s k).optid
  pub kept : (k : ℕ) → t.ring.tail ≤ k → k < s.ring.tail + max_pending_reqs → entry t k ≡ entry s k

-- One request is stamped.
pub stamp-Stamps :
    (m : Bool) (time : Timespec) (s : NicState)
    → s.ring.head < 2 ^ 32
    → s.ring.tail < s.ring.head
    → Stamps time s (stamp m time s)
stamp-Stamps m time s small below = record {
  lower = omega arith;
  upper = omega arith;
  head = refl;
  consumed = refl;
  opid = refl;
  written = λ k lo hi. let e : k ≡ s.ring.tail = omega arith in rw e (ground arith);
  optids = λ k. ground arith;
  kept = λ k lo hi. ground (arith, mod-ne 16 s.ring.tail k (omega arith) (omega arith));
}

pub Stamps-refl : (time : Timespec) (s : NicState) → s.ring.tail ≤ s.ring.head → Stamps time s s
Stamps-refl time s le = record {
  lower = omega arith;
  upper = le;
  head = refl;
  consumed = refl;
  opid = refl;
  written = λ k lo hi. absurd (omega arith);
  optids = λ k. refl;
  kept = λ k lo hi. refl;
}

pub Stamps-trans :
    {time : Timespec} {s t u : NicState}
    → t.ring.tail ≤ s.ring.tail + max_pending_reqs
    → u.ring.tail ≤ s.ring.tail + max_pending_reqs
    → Stamps time s t
    → Stamps time t u
    → Stamps time s u
Stamps-trans {time} {s} {t} {u} near far a b = record {
  lower = omega (arith, a.lower, b.lower);
  upper = omega (arith, b.upper, a.head);
  head = b.head ∙ a.head;
  consumed = b.consumed ∙ a.consumed;
  opid = b.opid ∙ a.opid;
  written = λ k lo hi. elim (dec_lt k t.ring.tail) [
    | yes early ↦ ap (λ i. i.time) (unwritten k lo early) ∙ a.written k lo early
    | no late ↦ b.written k (omega arith) hi
  ];
  optids = λ k. b.optids k ∙ a.optids k;
  kept = λ k lo hi. b.kept k lo (omega (arith, a.lower)) ∙ a.kept k (omega (arith, b.lower)) hi;
}
  where
    -- The slot of `k` is also that of `k + 16`, which `u` has not reached.
    unwritten : (k : ℕ) → s.ring.tail ≤ k → k < t.ring.tail → entry u k ≡ entry t k
    unwritten k lo hi =
        let same : slot (k + 16) ≡ slot k = omega arith in
        subst (λ j. u.ring.pending j ≡ t.ring.pending j) same
          (b.kept (k + 16) (omega (arith, far)) (omega arith))

-- What the loop over coalesced requests has done when it has ended by its own test.
pub record Coalesced (time : Timespec) (s t : NicState) : Type 0 where
  pub stamps : Stamps time s t
  pub ended : is_coalesced t ≡ false
  pub acknowledged :
      (k : ℕ) → s.ring.tail ≤ k → k < t.ring.tail → (entry s k).optid ≤ wrap32 (s.received_opid + 1)

-- With fewer than 2^32 requests sent, a tail at or below the head by at most 16, and at least their
-- distance as fuel, the loop over coalesced requests ends by its own test, not for lack of fuel; it
-- gives the time to the requests it passes, all of them acknowledged, and keeps the other entries.
pub stamp_coalesced-Coalesced :
    (fuel : ℕ) (m : Bool) (time : Timespec) (s : NicState)
    → s.ring.head < 2 ^ 32
    → s.ring.tail ≤ s.ring.head
    → s.ring.head ≤ s.ring.tail + max_pending_reqs
    → s.ring.head ≤ s.ring.tail + fuel
    → Coalesced time s (stamp_coalesced fuel m time s)
unfolding stamp_coalesced
stamp_coalesced-Coalesced zero m time s small le room enough = record {
  stamps = Stamps-refl time s le;
  ended = ground arith;
  acknowledged = λ k lo hi. absurd (omega arith);
}
stamp_coalesced-Coalesced (suc fuel) m time s small le room enough =
    elim (Bool-cases (is_coalesced s)) [
      | inl more ↦
          let below : s.ring.tail < s.ring.head = ground arith in
          let one = stamp-Stamps m time s small below in
          let s' = stamp m time s in
          let ih =
            stamp_coalesced-Coalesced fuel m time s' small (omega arith) (omega arith)
              (omega arith) in
          rw (more, stamp_coalesced)
            (record {
              stamps = Stamps-trans (omega arith) (omega (arith, ih.stamps.upper)) one ih.stamps;
              ended = ih.ended;
              acknowledged = λ k lo hi. elim (dec_lt s.ring.tail k) [
                | yes later ↦ rw (one.optids k) at (ih.acknowledged k (omega arith) hi)
                | no first ↦ let e : k ≡ s.ring.tail = omega arith in rw e (ground arith)
              ];
            })
      | inr done ↦
          rw (done, stamp_coalesced)
            (record {
              stamps = Stamps-refl time s le;
              ended = done;
              acknowledged = λ k lo hi. absurd (omega arith);
            })
    ]
