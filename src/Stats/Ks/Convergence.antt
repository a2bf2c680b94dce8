-- ===== src/Stats/Ks/Convergence.antt =====
-- What the test of convergence does to the samples: it sorts them by the time of sending, and then
-- each half by latency, in place.
use kata_load_test.Base.{
  ℕ, ◌+◌, ◌-◌, ◌/◌, ◌^◌, ◌≤◌, ◌<◌, ◌≡◌, ap, ◌∙◌, arith, ltb, if◌then◌else◌, Bool-cases, inl, inr,
}
use kata_load_test.Rand.Real.{Real}
use kata_load_test.Stats.State.{LatSample}
use kata_load_test.Stats.Sort.{Sort, IsSorting, sample_cmp_latency, sample_cmp_tx}
use kata_load_test.Stats.Sort.Laws.{sample_cmp_latency-Agrees}
use kata_load_test.Stats.Ks.{compute_convergence}

-- The first `n` entries are permuted, and the others are as they were.
pub record IsShuffled (n : ℕ) (before after : ℕ → LatSample) : Type 0 where
  pub source : ℕ → ℕ
  pub target : ℕ → ℕ
  pub source_lt : (i : ℕ) → i < n → source i < n
  pub target_lt : (i : ℕ) → i < n → target i < n
  pub source_target : (i : ℕ) → i < n → source (target i) ≡ i
  pub target_source : (i : ℕ) → i < n → target (source i) ≡ i
  pub permutes : (i : ℕ) → i < n → after i ≡ before (source i)
  pub keeps : (i : ℕ) → n ≤ i → after i ≡ before i

-- From index `i` on, `n` entries in the order of their latencies.
abbrev pub IsOrdered : ℕ → ℕ → (ℕ → LatSample) → Type 0
IsOrdered i n f = (j k : ℕ) → i ≤ j → j ≤ k → k < i + n → (f j).nsec ≤ (f k).nsec

-- An index that is moved within the first `h` and within the `h` behind them.
abbrev within : ℕ → (ℕ → ℕ) → (ℕ → ℕ) → ℕ → ℕ
within h low high i = if ltb i h then low i else if ltb i (h + h) then h + high (i - h) else i

within-lt :
    (h n : ℕ) (low high : ℕ → ℕ) (i : ℕ)
    → h + h ≤ n
    → ((j : ℕ) → j < h → low j < h)
    → ((j : ℕ) → j < h → high j < h)
    → i < n
    → within h low high i < n
within-lt h n low high i room l k lt = elim (Bool-cases (ltb i h)) [
  | inl first ↦ let e = l i (ground arith) in ground arith
  | inr behind ↦ elim (Bool-cases (ltb i (h + h))) [
    | inl second ↦ let e = k (i - h) (ground arith) in ground arith
    | inr rest ↦ ground arith
  ]
]

within-second : (h : ℕ) (low high : ℕ → ℕ) (j : ℕ) → j < h → within h low high (h + j) ≡ h + high j
within-second h low high j lt = let same : h + j - h ≡ j = omega arith in ground (arith, same)

within-inverse :
    (h : ℕ) (low low' high high' : ℕ → ℕ) (i : ℕ)
    → ((j : ℕ) → j < h → (low' j < h) × (low (low' j) ≡ j))
    → ((j : ℕ) → j < h → (high' j < h) × (high (high' j) ≡ j))
    → within h low high (within h low' high' i) ≡ i
within-inverse h low low' high high' i l k = elim (Bool-cases (ltb i h)) [
  | inl first ↦ let e = l i (ground arith) in ground arith
  | inr behind ↦ elim (Bool-cases (ltb i (h + h))) [
    | inl second ↦
        let e = k (i - h) (ground arith) in
        let w : within h low' high' i ≡ h + high' (i - h) = ground arith in
        ap (within h low high) w
        ∙ within-second h low high (high' (i - h)) e.0
        ∙ ground (arith, e.1)
    | inr rest ↦ ground arith
  ]
]

module _ (F : Real) (Q : Sort) (unset : F.R) (samples : ℕ → LatSample) (size : ℕ) where
  abbrev by_tx : ℕ → LatSample
  by_tx = Q.qsort sample_cmp_tx size samples

  abbrev half : ℕ
  half = size / 2

  abbrev upper : ℕ → LatSample
  upper i = by_tx (half + i)

  abbrev tested : ℕ → LatSample
  tested = (compute_convergence F Q unset samples size).1

  module _ (all : IsSorting Q sample_cmp_tx size samples)
      (first : IsSorting Q sample_cmp_latency half by_tx)
      (second : IsSorting Q sample_cmp_latency half upper) where
    tested-source : (i : ℕ) → i < size → tested i ≡ by_tx (within half first.source second.source i)
    unfolding compute_convergence
    tested-source i lt = elim (Bool-cases (ltb i half)) [
      | inl low ↦ let e = first.permutes i (ground arith) in ground (arith, e)
      | inr behind ↦ elim (Bool-cases (ltb i (half + half))) [
        | inl high ↦ let e = second.permutes (i - half) (ground arith) in ground (arith, e)
        | inr rest ↦ ground arith
      ]
    ]

    tested-keeps : (i : ℕ) → size ≤ i → tested i ≡ samples i
    unfolding compute_convergence
    tested-keeps i le = let e = all.keeps i le in ground (arith, e)

    tested-IsShuffled : IsShuffled size samples tested
    tested-IsShuffled = record {
      source = λ i. all.source (moved i);
      target = λ i. moved_back (all.target i);
      source_lt = λ i lt. all.source_lt (moved i) (moved_lt i lt);
      target_lt = λ i lt.
          within-lt half size first.target second.target (all.target i) room first.target_lt
            second.target_lt (all.target_lt i lt);
      source_target = λ i lt.
          ap all.source (
            within-inverse half first.source first.target second.source second.target (all.target i)
              (λ j h. (first.target_lt j h, first.source_target j h))
              (λ j h. (second.target_lt j h, second.source_target j h)))
          ∙ all.source_target i lt;
      target_source = λ i lt.
          ap moved_back (all.target_source (moved i) (moved_lt i lt))
          ∙ within-inverse half first.target first.source second.target second.source i
              (λ j h. (first.source_lt j h, first.target_source j h))
              (λ j h. (second.source_lt j h, second.target_source j h));
      permutes = λ i lt. tested-source i lt ∙ all.permutes (moved i) (moved_lt i lt);
      keeps = tested-keeps;
    }
      where
        moved : ℕ → ℕ
        moved = within half first.source second.source

        moved_back : ℕ → ℕ
        moved_back = within half first.target second.target

        room : half + half ≤ size
        room = omega arith

        moved_lt : (i : ℕ) → i < size → moved i < size
        moved_lt i lt =
            within-lt half size first.source second.source i room first.source_lt second.source_lt
              lt

    module _ (small : (i : ℕ) → i < size → (samples i).nsec < 2 ^ 31) where
      small_by_tx : (i : ℕ) → i < size → (by_tx i).nsec < 2 ^ 31
      small_by_tx i lt =
          let e = ap (λ x. x.nsec) (all.permutes i lt) in
          omega (arith, e, small (all.source i) (all.source_lt i lt))

      lower-IsOrdered : IsOrdered 0 half tested
      unfolding compute_convergence
      lower-IsOrdered j k lo le hi =
          let sorted =
            first.sorts (λ x. x.nsec)
              (sample_cmp_latency-Agrees half by_tx (λ i lt. small_by_tx i (omega arith))) j k le
              (omega (arith, hi)) in
          ground (arith, sorted)

      upper-IsOrdered : IsOrdered half half tested
      unfolding compute_convergence
      upper-IsOrdered j k lo le hi =
          let sorted =
            second.sorts (λ x. x.nsec)
              (sample_cmp_latency-Agrees half upper (λ i lt. small_by_tx (half + i) (omega arith)))
              (j - half) (k - half) (omega arith) (omega arith) in
          ground (arith, sorted)

      -- If the three calls of qsort permute, those by latency sort, and the latencies are below 2 ^ 31 ns: the
      -- test of convergence permutes the samples and keeps what is behind them, and then each half of
      -- the samples is in the order of the latencies.
      pub compute_convergence-shuffles :
          IsShuffled size samples (compute_convergence F Q unset samples size).1
          × IsOrdered 0 (size / 2) (compute_convergence F Q unset samples size).1
          × IsOrdered (size / 2) (size / 2) (compute_convergence F Q unset samples size).1
      compute_convergence-shuffles = (tested-IsShuffled, lower-IsOrdered, upper-IsOrdered)
