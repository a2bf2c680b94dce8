-- ===== src/Stats/Samples/Rings.antt =====
-- The two sample rings of lancet/agents/stats.c: `tx_s` and the latency samples hold the latest
-- entries of all that was recorded.
use kata_load_test.Base.{
  ℕ, ◌+◌, ◌%◌, ◌^◌, ◌≤◌, ◌<◌, ◌≡◌, ◌≢◌, refl, inl, inr, true, false, Option, some, List, [], ◌∷◌,
  ◌++◌, arith, min, length, get_elem?, length-append, get_elem?-append_left, get_elem?-append_self,
  mod-ne, Bool-cases, ◌==◌, Outcome, ok, ◌>>=◌, map,
}
use mathlib.Core.List.{append-nil, append_assoc}
use kata_load_test.Base.Int.{ℤ, to_u64}
use kata_load_test.Timespec.{Timespec}
use kata_load_test.Stats.State.{
  AgentType, throughput_agent, latency_agent, symmetric_nic_timestamp_agent, symmetric_agent,
  agent_nr, TxSamples, LatencyStats, max_per_thread_tx_samples,
}
use kata_load_test.Stats.Samples.{
  zero_header, clear_stats, add_tx_timestamp, add_latency_sample, store_sample,
}

-- Slot `i % cap` holds entry `i` of the history, for the latest `cap` entries.
abbrev pub HoldsLatest {ℓ} : {A : Type ℓ} → (ℕ → A) → ℕ → List A → Type ℓ
HoldsLatest f cap hist =
    (i : ℕ) → i < length hist → length hist ≤ i + cap → get_elem? hist i ≡ some (f (i % cap))

-- Writing entry `length hist` at its slot, and nothing else, extends the history.
HoldsLatest-snoc {ℓ} :
    {A : Type ℓ} (f g : ℕ → A) (cap : ℕ) (hist : List A) (v : A)
    → g (length hist % cap) ≡ v
    → ((j : ℕ) → j ≢ length hist % cap → g j ≡ f j)
    → HoldsLatest f cap hist
    → HoldsLatest g cap (hist ++ v ∷ [])
HoldsLatest-snoc f g cap hist v here there old i lt recent = elim (Bool-cases (i == length hist)) [
  | inl last ↦ let e : i ≡ length hist = ground arith in rw (e, here) (get_elem?-append_self hist v)
  | inr before ↦
      let len = length-append hist (v ∷ []) in
      let lt' : i < length hist = ground (arith, len) in
      rw
        (
          get_elem?-append_left hist (v ∷ []) i lt',
          there (i % cap) (mod-ne cap i (length hist) lt' (omega (arith, len))),
        )
        (old i lt' (omega (arith, len)))
]

-- A thread's `add_tx_timestamp` calls while measuring, in order.
pub record_tx : List Timespec → TxSamples → TxSamples
unfolding add_tx_timestamp
record_tx [] t = t
record_tx (x ∷ xs) t = record_tx xs (add_tx_timestamp true x t)

record_tx-latest :
    (xs hist : List Timespec) (t : TxSamples)
    → length hist + length xs < 2 ^ 32
    → t.count ≡ length hist
    → HoldsLatest t.samples max_per_thread_tx_samples hist
    → let t' = record_tx xs t in
      (t'.count ≡ length (hist ++ xs))
      × HoldsLatest t'.samples max_per_thread_tx_samples (hist ++ xs)
unfolding record_tx
record_tx-latest [] hist t small e h = rw append-nil (e, h)
record_tx-latest (x ∷ xs) hist t small e h =
    let len = length-append hist (x ∷ []) in
    rw (← append_assoc hist (x ∷ []) xs) (
      record_tx-latest xs (hist ++ x ∷ []) (add_tx_timestamp true x t) (omega (arith, len))
        (omega (arith, len, e, small))
        (HoldsLatest-snoc t.samples (add_tx_timestamp true x t).samples max_per_thread_tx_samples
          hist x (ground (arith, e)) (λ j ne. ground (arith, e)) h))

-- A thread's `add_latency_sample` calls while measuring, none of them skipped, in order.
pub record_latency : ℕ → List (ℤ × Option Timespec) → LatencyStats → Outcome LatencyStats
unfolding add_latency_sample
record_latency cap [] s = ok s
record_latency cap ((diff, tx) ∷ xs) s =
    add_latency_sample true false cap diff tx s >>= record_latency cap xs

abbrev pub latencies : List (ℤ × Option Timespec) → List ℕ
latencies xs = map (λ x. to_u64 x.0) xs

abbrev pub nsecs : LatencyStats → ℕ → ℕ
nsecs s i = (s.samples i).nsec

-- What the ring holds after the latencies of `hist` were recorded, oldest first: their number, the
-- number of slots in use, and the latest `cap` of them.
pub record Recorded (cap : ℕ) (hist : List ℕ) (s : LatencyStats) : Type 0 where
  pub counted : s.count ≡ length hist
  pub sized : s.size ≡ min (length hist) cap
  pub held : HoldsLatest (nsecs s) cap hist

store_sample-Recorded :
    (cap : ℕ) (hist : List ℕ) (diff : ℤ) (tx : Option Timespec) (s : LatencyStats)
    → 0 < cap
    → length hist + 1 < 2 ^ 32
    → Recorded cap hist s
    → Recorded cap (hist ++ to_u64 diff ∷ []) (store_sample cap diff tx s)
store_sample-Recorded cap hist diff tx s pos small r = record {
  counted = omega (arith, len, r.counted);
  sized = ground (arith, len, r.counted);
  held =
      HoldsLatest-snoc (nsecs s) (nsecs (store_sample cap diff tx s)) cap hist (to_u64 diff)
        (ground (arith, r.counted)) (λ j ne. ground (arith, r.counted)) r.held;
}
  where
    len : length (hist ++ to_u64 diff ∷ []) ≡ length hist + 1
    len = omega (arith, length-append hist (to_u64 diff ∷ []))

record_latency-Recorded :
    (cap : ℕ) (xs : List (ℤ × Option Timespec)) (hist : List ℕ) (s : LatencyStats)
    → 0 < cap
    → length hist + length xs < 2 ^ 32
    → Recorded cap hist s
    → (s' : LatencyStats) × (record_latency cap xs s ≡ ok s')
      × Recorded cap (hist ++ latencies xs) s'
unfolding record_latency
record_latency-Recorded cap [] hist s pos small r = (s, refl, rw append-nil r)
record_latency-Recorded cap ((diff, tx) ∷ xs) hist s pos small r =
    let rest =
      record_latency-Recorded cap xs (hist ++ to_u64 diff ∷ []) (store_sample cap diff tx s) pos
        (omega (arith, length-append hist (to_u64 diff ∷ [])))
        (store_sample-Recorded cap hist diff tx s pos (omega arith) r) in
    (
      rest.0,
      ground (arith, rest.1),
      rw (← append_assoc hist (to_u64 diff ∷ []) (latencies xs)) rest.2,
    )

empty : (cap : ℕ) (s : LatencyStats) → s.count ≡ 0 → s.size ≡ 0 → Recorded cap [] s
empty cap s c z = record { counted = c; sized = omega arith; held = λ i lt. absurd (omega arith) }

-- On statistics cleared for an agent type that samples latencies, and with at least one slot, fewer than 2^32 calls of `add_latency_sample`
-- all succeed. Then the count is their number, the size is that number up to the `cap` slots, and
-- slot `i % cap` holds the latency of call `i`, for the latest `cap` calls.
pub add_latency_sample-latest :
    (atype : AgentType) (cap : ℕ) (xs : List (ℤ × Option Timespec)) (s : LatencyStats)
    → atype ≢ throughput_agent
    → atype ≢ agent_nr
    → 0 < cap
    → length xs < 2 ^ 32
    → (s' : LatencyStats) × (record_latency cap xs (clear_stats atype s) ≡ ok s')
      × Recorded cap (latencies xs) s'
unfolding clear_stats
add_latency_sample-latest atype cap xs s nt nn pos small =
    record_latency-Recorded cap xs [] (clear_stats atype s) pos (omega arith) (start atype nt nn)
  where
    start :
        (a : AgentType) → a ≢ throughput_agent → a ≢ agent_nr → Recorded cap [] (clear_stats a s)
    start throughput_agent h k = absurd (h refl)
    start latency_agent h k = empty cap (zero_header s) refl refl
    start symmetric_nic_timestamp_agent h k = empty cap (zero_header s) refl refl
    start symmetric_agent h k = empty cap (zero_header s) refl refl
    start agent_nr h k = absurd (k refl)

-- Fewer than 2^32 transmit times recorded while measuring, from a count of 0: the count is their
-- number, and slot `i % 2048` holds the time of call `i`, for the latest 2048 calls.
pub add_tx_timestamp-latest :
    (xs : List Timespec) (t : TxSamples)
    → t.count ≡ 0
    → length xs < 2 ^ 32
    → ((record_tx xs t).count ≡ length xs)
      × HoldsLatest (record_tx xs t).samples max_per_thread_tx_samples xs
add_tx_timestamp-latest xs t e small =
    record_tx-latest xs [] t (omega arith) e (λ i lt. absurd (omega arith))
