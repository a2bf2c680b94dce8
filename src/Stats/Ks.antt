-- ===== src/Stats/Ks.antt =====
-- The Kolmogorov-Smirnov statistic of lancet/agents/stats.c, and the tests that use it.
pub mod Laws
pub mod Convergence
use kata_load_test.Base.{ℕ, zero, suc, ◌+◌, ◌/◌, Bool, ◌&&◌, if◌then◌else◌, ltb, ◌==◌, copy}
use kata_load_test.Base.Int.{pos, negsuc}
use kata_load_test.Rand.Real.{Real}
use kata_load_test.Stats.State.{LatSample}
use kata_load_test.Stats.Sort.{Sort, long_compare, sample_cmp_latency, sample_cmp_tx}

-- The local variables of the loop.
pub record KsState (R : Type 0) : Type 0 where
  pub ia : ℕ
  pub ib : ℕ
  pub diff : R
  pub max_diff : R

module _ (F : Real) where
  open F use {R}

  abbrev count : ℕ → R
  count n = F.of_int (pos n)

  module _ (a b : ℕ → ℕ) (a_len b_len : ℕ) where
    abbrev min_val : KsState R → ℕ
    min_val s = if ltb (a s.ia) (b s.ib) then a s.ia else b s.ib

    abbrev step_a : ℕ → KsState R → KsState R
    step_a v s =
        if v == a s.ia
        then record s {
          diff = F.sub (F.div (count (s.ia + 1)) (count a_len)) (F.div (count s.ib) (count b_len));
          ia = s.ia + 1;
        }
        else s

    abbrev step_b : ℕ → KsState R → KsState R
    step_b v s =
        if v == b s.ib
        then record s {
          diff = F.sub (F.div (count (s.ib + 1)) (count b_len)) (F.div (count s.ia) (count a_len));
          ib = s.ib + 1;
        }
        else s

    abbrev absolute : R → R
    absolute d = if F.lt d (F.of_int (pos 0)) then F.mul d (F.of_int (negsuc 0)) else d

    abbrev raise_max : KsState R → KsState R
    raise_max s =
        let d = absolute s.diff in
        record s { diff = d; max_diff = if F.lt s.max_diff d then d else s.max_diff }

    -- The body of the loop.
    unfoldable pub ks_round : KsState R → KsState R
    ks_round s = raise_max (step_b (min_val s) (step_a (min_val s) s))

    -- The loop, on fuel.
    unfoldable pub ks_loop : ℕ → KsState R → KsState R
    ks_loop zero s = s
    ks_loop (suc fuel) s =
        let rest = ks_loop fuel (ks_round s) in if ltb s.ia a_len && ltb s.ib b_len then rest else s

    -- `diff` is not set in front of the loop; `unset` is what it holds.
    abbrev pub ks_start : R → KsState R
    ks_start unset = record { ia = 0; ib = 0; diff = unset; max_diff = F.of_int (pos 0) }

    -- Every round raises `ia` or `ib`.
    abbrev pub ks_sorted : R → KsState R
    ks_sorted unset = ks_loop (a_len + b_len) (ks_start unset)

  -- With the two arrays afterwards.
  unfoldable pub ks : Sort → R → (ℕ → ℕ) → (ℕ → ℕ) → ℕ → ℕ → R × (ℕ → ℕ) × (ℕ → ℕ)
  unfolding ks_loop
  ks Q unset a b a_len b_len =
      let a' = Q.qsort long_compare a_len a in
      let b' = Q.qsort long_compare b_len b in
      ((ks_sorted a' b' a_len b_len unset).max_diff, a', b')

  unfoldable pub ks_lts :
      Sort → R → (ℕ → LatSample) → (ℕ → LatSample) → ℕ → ℕ → R × (ℕ → LatSample) × (ℕ → LatSample)
  unfolding ks_loop
  ks_lts Q unset a b a_len b_len =
      let a' = Q.qsort sample_cmp_latency a_len a in
      let b' = Q.qsort sample_cmp_latency b_len b in
      ((ks_sorted (λ i. (a' i).nsec) (λ i. (b' i).nsec) a_len b_len unset).max_diff, a', b')

  -- The literal 1.858.
  abbrev pub ca : R
  ca = F.literal 1858 3

  -- Whether the samples converged, and the samples afterwards: each half is sorted in place.
  unfoldable pub compute_convergence : Sort → R → (ℕ → LatSample) → ℕ → Bool × (ℕ → LatSample)
  unfolding ks_lts
  compute_convergence Q unset samples size =
      let by_tx = Q.qsort sample_cmp_tx size samples in
      let (dnm, low, high) =
        ks_lts Q unset by_tx (λ i. by_tx (size / 2 + i)) (size / 2) (size / 2) in
      let size_d = count (size / 2) in
      let val = F.mul ca (F.sqrt (F.div (F.mul (count 2) size_d) (F.mul size_d size_d))) in
      (F.lt dnm val, copy (copy by_tx 0 low (size / 2)) (size / 2) high (size / 2))
