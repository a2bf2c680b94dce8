-- ===== src/Stats/Interarrival.antt =====
-- `check_ia` and `collect_reference_ia` of lancet/agents/stats.c: whether the times between the
-- requests have the distribution that they should have.
pub mod Laws
pub mod Check
use kata_load_test.Base.{
  ℕ, zero, suc, ◌+◌, ◌-◌, ◌*◌, ◌≤◌, Bool, Option, some, List, [], ◌∷◌, ltb, leb, if◌then◌else◌,
  copy, update, Outcome, ok, stop, assert_failed, bad_access, ◌>>=◌, ◌>>◌, or_stop, require, assert,
}
use kata_load_test.Base.Int.{ℤ, pos, to_u64}
use kata_load_test.Timespec.{Timespec, is_zero, timespec_diff}
use kata_load_test.Rand.Real.{Real}
use kata_load_test.Rand.Gen.{RandGen, generate}
use kata_load_test.Stats.State.{ThreadStats, AllStats, TxSamples, max_per_thread_tx_samples}
use kata_load_test.Stats.Sort.{Sort, timespec_cmp}
use kata_load_test.Stats.Ks.{ks, ca}

-- REFERENCE_IA_SIZE, and the length of `data` and `collected_ia`.
abbrev pub reference_ia_size : ℕ
reference_ia_size = 8192

abbrev pub max_collected : ℕ
max_collected = 16 * max_per_thread_tx_samples

abbrev pub to_copy : TxSamples → ℕ
to_copy tx = if ltb max_per_thread_tx_samples tx.count then max_per_thread_tx_samples else tx.count

-- The times of the threads, one thread behind the other, and how many they are. The assertion on
-- their number stands behind the copies.
unfoldable pub collect_tx : AllStats → (ℕ → Timespec) → ℕ → Outcome ((ℕ → Timespec) × ℕ)
collect_tx [] times copy_idx = ok (times, copy_idx)
collect_tx (t ∷ ts) times copy_idx = do
  require (leb (copy_idx + to_copy t.tx_s) max_collected) bad_access
  collect_tx ts (copy times copy_idx t.tx_s.samples (to_copy t.tx_s)) (copy_idx + to_copy t.tx_s)

-- The times between `n` + 1 entries from index `i` on.
unfoldable pub inter_tx : ℕ → ℕ → (ℕ → Timespec) → (ℕ → ℕ) → Outcome (ℕ → ℕ)
inter_tx zero i times collected_ia = ok collected_ia
inter_tx (suc n) i times collected_ia = do
  diff ← or_stop (timespec_diff (some (times (suc i))) (some (times i))) assert_failed
  assert (is_zero diff.sec)
  inter_tx n (suc i) times (update collected_ia i (to_u64 diff.nsec))

module _ (F : Real) where
  open F use {R}

  -- `draws` are what the random number generator gives.
  unfoldable pub collect_loop : ℕ → RandGen R → (ℕ → R) → (ℕ → ℕ) → Outcome (ℕ → ℕ)
  collect_loop zero gen draws reference_ia = ok reference_ia
  collect_loop (suc n) gen draws reference_ia = do
    before ← collect_loop n gen draws reference_ia
    v ← generate F gen (draws n)
    ok (update before n (to_u64 (F.lround (F.mul v (F.of_int (pos 1000))))))

  -- The generator is `reference_ia_gen`; the function's argument is not used.
  abbrev pub collect_reference_ia : Option (RandGen R) → (ℕ → R) → (ℕ → ℕ) → Outcome (ℕ → ℕ)
  collect_reference_ia reference_ia_gen draws reference_ia =
      or_stop reference_ia_gen bad_access >>= λ gen.
      collect_loop reference_ia_size gen draws reference_ia

  -- The locals that are not set, and `collected_ia`, which is static; the result is the answer, and
  -- the two static arrays afterwards. With no times at all the size passed to qsort is (size_t)-1.
  unfoldable pub check_ia :
      Sort → R → (ℕ → Timespec) → AllStats → (ℕ → ℕ) → (ℕ → ℕ) → Outcome (Bool × (ℕ → ℕ) × (ℕ → ℕ))
  unfolding collect_tx inter_tx
  check_ia Q unset stack all reference_ia collected_ia = do
    (times, copy_idx) ← collect_tx all stack 0
    assert (leb copy_idx max_collected)
    let sorted = Q.qsort timespec_cmp copy_idx times
    collected ← inter_tx (copy_idx - 1) 0 sorted collected_ia
    require (ltb 0 copy_idx) bad_access
    let (ks_result, reference', collected') =
        ks F Q unset reference_ia collected reference_ia_size (copy_idx - 1)
    let size = F.of_int (pos (copy_idx - 1))
    let reference_size = F.of_int (pos reference_ia_size)
    let val = F.mul (ca F) (F.sqrt (F.div (F.add reference_size size) (F.mul reference_size size)))
    ok (F.lt ks_result val, reference', collected')
