-- ===== src/Tcp/Symmetric/Match.antt =====
-- Which send time a batch of responses is matched with.
use kata_load_test.Base.{
  ℕ, zero, suc, ◌+◌, ◌-◌, ◌≤◌, ◌<◌, ◌≡◌, ◌∙◌, ap, Option, none, some, List, arith, drop, get_elem?,
  get_elem?-total, drop-nth, ok, ◌>>=◌, ltb, if◌then◌else◌,
}
use kata_load_test.Timespec.{Timespec}
use kata_load_test.Stats.State.{LatencyStats}
use kata_load_test.Timestamping.Pending.{
  PendingTxTimestamps, TimestampInfo, pop_pending_tx_timestamps, blind_skip_tx_timestamps,
}
use kata_load_test.Timestamping.Queue.{
  IsQueue, waiting, waiting-skip, waiting-pop, length-waiting, fifo_pop, popped_time, consumed_by,
}
use kata_load_test.Tcp.Thread.{Readable}
use kata_load_test.Tcp.Symmetric.{match_responses, sample_latency}

-- The skip before a pop, as the code guards it.
abbrev pub skipped : ℕ → PendingTxTimestamps → PendingTxTimestamps
skipped reqs p = if ltb 1 reqs then blind_skip_tx_timestamps (reqs - 1) p else p

record Skipped (n : ℕ) (p q : PendingTxTimestamps) : Type 0 where
  queue : IsQueue q
  left : waiting q ≡ drop n (waiting p)
  consumed : q.consumed ≡ p.consumed + n
  head : q.head ≡ p.head

skipped-Skipped :
    (k : ℕ) (p : PendingTxTimestamps)
    → IsQueue p
    → p.consumed + suc k ≤ p.tail
    → Skipped k p (skipped (suc k) p)
skipped-Skipped zero p v le = ground arith
skipped-Skipped (suc k) p v le =
    let (queue, left, consumed, head) = waiting-skip (suc k) p v (omega arith) in ground arith

-- The pop after the skip, at a queue whose entry `k` is `x`.
record Popped (k : ℕ) (x : Timespec) (p : PendingTxTimestamps) (i : TimestampInfo)
    (q : PendingTxTimestamps) : Type 0 where
  pub run : pop_pending_tx_timestamps (skipped (suc k) p) ≡ ok (some i, q)
  pub time : i.time ≡ x
  pub queue : IsQueue q
  pub left : waiting q ≡ drop (suc k) (waiting p)
  pub consumed : q.consumed ≡ p.consumed + suc k
  pub head : q.head ≡ p.head

pop-Popped :
    (k : ℕ) (x : Timespec) (p : PendingTxTimestamps)
    → IsQueue p
    → p.consumed + suc k ≤ p.tail
    → get_elem? (waiting p) k ≡ some x
    → (i : TimestampInfo) × (q : PendingTxTimestamps) × Popped k x p i q
pop-Popped k x p v le nth =
    let s = skipped-Skipped k p v le in
    let (i, q, run, vq, same, consumed, head) = waiting-pop (skipped (suc k) p) s.queue in
    taken i q run vq (same ∙ ap fifo_pop (s.left ∙ drop-nth (waiting p) k x nth))
      (consumed ∙ ap (λ n. n + consumed_by i) s.consumed) (head ∙ s.head)
  where
    taken :
        (i : Option TimestampInfo) (q : PendingTxTimestamps)
        → pop_pending_tx_timestamps (skipped (suc k) p) ≡ ok (i, q)
        → IsQueue q
        → ◌≡◌ {A = Option Timespec × List Timespec}
            (popped_time i, waiting q)
            (some x, drop (suc k) (waiting p))
        → q.consumed ≡ p.consumed + k + consumed_by i
        → q.head ≡ p.head
        → (i : TimestampInfo) × (q : PendingTxTimestamps) × Popped k x p i q
    taken none q run vq same consumed head = absurd (ground arith)
    taken (some i) q run vq same consumed head = (
      i,
      q,
      record {
        run = run;
        time = ground arith;
        queue = vq;
        left = ap (λ r. r.1) same;
        consumed = omega arith;
        head = head;
      },
    )

-- What a batch of responses does to the ring `p`, whose queue has the entry `x` for the last
-- request of the batch.
pub record Matched (e : Readable) (reqs : ℕ) (x : Timespec) (p q : PendingTxTimestamps)
    (s : LatencyStats) : Type 0 where
  pub run : match_responses e reqs p s ≡ (sample_latency e (some x) s >>= λ s'. ok (q, s'))
  pub queue : IsQueue q
  pub left : waiting q ≡ drop reqs (waiting p)
  pub consumed : q.consumed ≡ p.consumed + reqs
  pub head : q.head ≡ p.head

-- On a well-formed ring, for a batch of at least one and at most as many responses as requests
-- wait: no assertion on the ring fails and the send time is never missing, the latency sample is taken against the send time
-- of the last request of the batch, and exactly the requests of the batch leave the queue.
pub match_responses-Matched :
    (e : Readable) (reqs : ℕ) (p : PendingTxTimestamps) (s : LatencyStats)
    → IsQueue p
    → 0 < reqs
    → p.consumed + reqs ≤ p.tail
    → (x : Timespec) × (q : PendingTxTimestamps) × (get_elem? (waiting p) (reqs - 1) ≡ some x)
      × Matched e reqs x p q s
unfolding match_responses
match_responses-Matched e zero p s v some_reqs le = absurd (omega arith)
match_responses-Matched e (suc k) p s v some_reqs le =
    let (x, nth) = get_elem?-total (waiting p) k (omega (arith, length-waiting p v)) in
    let (i, q, popped) = pop-Popped k x p v le nth in
    let e0 : suc k - 1 ≡ k = omega arith in
    (
      x,
      q,
      rw e0 nth,
      record {
        run =
            rw popped.run (ap (λ w. sample_latency e (some w) s >>= λ s'. ok (q, s')) popped.time);
        queue = popped.queue;
        left = popped.left;
        consumed = popped.consumed;
        head = popped.head;
      },
    )
