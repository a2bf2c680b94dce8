-- ===== src/Server/Laws.antt =====
-- Spinning ends, and a request of the synthetic protocol is served.
use mathlib.Core.List.{flatten, append-nil}
use native.Mathlib.Nat.{pow-suc}
use kata_load_test.Base.{
  ℕ, zero, suc, ◌+◌, ◌/◌, ◌^◌, ◌≤◌, ◌<◌, ◌≡◌, refl, sym, subst, ap, Bool-cases, inl, inr, some,
  List, ◌==◌, arith, true, false, length, lt→ltb, ok,
}
use kata_load_test.Base.Int.{ℤ, pos, ◌+ℤ◌, ◌≤ℤ◌, ltb_ℤ}
use kata_load_test.AppProto.Response.{proto_synthetic, consume_response}
use kata_load_test.AppProto.Request.{PerThread, bytes_of, create_request}
use kata_load_test.Server.{little_endian, to_long, size_of_long, spin_loop, spin, process_req}

not_below : (a b : ℤ) → ltb_ℤ a b ≡ false → b ≤ℤ a
not_below a b h = ground arith

module _ (clock : ℕ → ℤ) where
  -- The first reading from `k` on that is not before the deadline.
  pub record IsFirst (deadline : ℤ) (k j : ℕ) : Type 0 where
    pub from : k ≤ j
    pub reached : deadline ≤ℤ clock j
    pub before : (i : ℕ) → k ≤ i → i < j → ltb_ℤ (clock i) deadline ≡ true

  passes :
      (deadline : ℤ) (k n : ℕ)
      → k ≤ n
      → ltb_ℤ (clock k) deadline ≡ true
      → deadline ≤ℤ clock n
      → suc k ≤ n
  passes deadline k n le early due = elim (Bool-cases (k == n)) [
    | inl same ↦
        let e : k ≡ n = ground arith in
        let due_now : deadline ≤ℤ clock k = subst (λ i. deadline ≤ℤ clock i) (sym e) due in
        absurd (ground arith)
    | inr apart ↦ ground arith
  ]

  IsFirst-back :
      (deadline : ℤ) (k j : ℕ)
      → ltb_ℤ (clock k) deadline ≡ true
      → IsFirst deadline (k + 1) j
      → IsFirst deadline k j
  IsFirst-back deadline k j early h = record {
    from = omega (arith, h.from);
    reached = h.reached;
    before = λ i lo hi. elim (Bool-cases (k == i)) [
      | inl same ↦
          let e : k ≡ i = ground arith in subst (λ x. ltb_ℤ (clock x) deadline ≡ true) e early
      | inr apart ↦ h.before i (ground arith) hi
    ];
  }

  spin_loop-IsFirst :
      (deadline : ℤ) (fuel k n : ℕ)
      → k ≤ n
      → n < k + fuel
      → deadline ≤ℤ clock n
      → (j : ℕ) × (spin_loop clock deadline fuel k ≡ some j) × (j ≤ n) × IsFirst deadline k j
  unfolding spin_loop
  spin_loop-IsFirst deadline zero k n le lt due = absurd (omega arith)
  spin_loop-IsFirst deadline (suc fuel) k n le lt due =
      elim (Bool-cases (ltb_ℤ (clock k) deadline)) [
        | inl early ↦
            let later : suc k ≤ n = passes deadline k n le early due in
            let (j, run, first, h) =
              spin_loop-IsFirst deadline fuel (k + 1) n (omega arith) (omega arith) due in
            (j, rw early run, first, IsFirst-back deadline k j early h)
        | inr due_now ↦ (
          k,
          rw due_now,
          le,
          record {
            from = omega arith;
            reached = not_below (clock k) deadline due_now;
            before = λ i lo hi. absurd (omega arith);
          },
        )
      ]

  -- If a later reading of the clock reaches the deadline, and the fuel lasts that long, the spinning
  -- ends: at the first reading after the start that is not before the deadline.
  pub spin-IsFirst :
      (usecs : ℤ) (fuel n : ℕ)
      → 0 < n
      → n ≤ fuel
      → clock 0 +ℤ usecs ≤ℤ clock n
      → (j : ℕ) × (spin clock usecs fuel ≡ some j) × (j ≤ n) × IsFirst (clock 0 +ℤ usecs) 1 j
  unfolding spin
  spin-IsFirst usecs fuel n h k due =
      spin_loop-IsFirst (clock 0 +ℤ usecs) fuel 1 n (omega arith) (omega arith) due

little_endian-bytes_of : (k n : ℕ) → n < 256 ^ k → little_endian (bytes_of k n) ≡ n
little_endian-bytes_of zero n h = omega arith
little_endian-bytes_of (suc k) n h =
    let rest = little_endian-bytes_of k (n / 256) (omega (arith, pow-suc 256 k)) in
    omega (arith, rest)

length-bytes_of : (k n : ℕ) → length (bytes_of k n) ≡ k
length-bytes_of zero n = refl
length-bytes_of (suc k) n = ap suc (length-bytes_of k (n / 256))

process_req-runs :
    (clock : ℕ → ℤ) (bs : List ℕ) (fuel : ℕ) (usecs : ℤ) (j : ℕ)
    → length bs ≡ size_of_long
    → to_long (little_endian bs) ≡ usecs
    → spin clock usecs fuel ≡ some j
    → process_req clock (some bs) (some size_of_long) fuel ≡ ok (some j)
unfolding process_req
process_req-runs clock bs fuel usecs j len value run = rw (len, value, run)

long_of_sample :
    (sample : ℕ)
    → sample < 2 ^ 63
    → to_long (little_endian (bytes_of size_of_long sample)) ≡ pos sample
long_of_sample sample small =
    rw (little_endian-bytes_of size_of_long sample (omega arith), lt→ltb sample (2 ^ 63) small)

flatten-create_request :
    (sample : ℕ) (arg : PerThread)
    → flatten (create_request proto_synthetic sample arg).0 ≡ bytes_of size_of_long sample
unfolding create_request flatten
flatten-create_request sample arg = append-nil (bytes_of size_of_long sample)

-- A request of the synthetic protocol for `sample` microseconds, below 2 ^ 63, read in full, when a
-- later reading of the clock reaches the start plus `sample` and the reply is written in full: the
-- server spins for that time, to the first reading of the clock that shows it, and its reply is one
-- whole response for the agent.
pub process_req-serves :
    (sample : ℕ) (arg : PerThread) (clock : ℕ → ℤ) (fuel n : ℕ)
    → sample < 2 ^ 63
    → 0 < n
    → n ≤ fuel
    → clock 0 +ℤ pos sample ≤ℤ clock n
    → (j : ℕ) × (process_req clock
          (some (flatten (create_request proto_synthetic sample arg).0))
          (some size_of_long)
          fuel
        ≡ ok (some j))
      × (j ≤ n)
      × IsFirst clock (clock 0 +ℤ pos sample) 1 j
      × (consume_response proto_synthetic size_of_long ≡ ok (record { bytes = 8; reqs = 1 }))
unfolding consume_response
process_req-serves sample arg clock fuel n small h k due =
    let (j, run, first, is_first) = spin-IsFirst clock (pos sample) fuel n h k due in
    let served =
      process_req-runs clock (bytes_of size_of_long sample) fuel (pos sample) j
        (length-bytes_of size_of_long sample) (long_of_sample sample small) run in
    (j, rw (flatten-create_request sample arg) served, first, is_first, refl)
