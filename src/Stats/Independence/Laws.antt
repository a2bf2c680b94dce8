-- ===== src/Stats/Independence/Laws.antt =====
-- When the correlation of the latencies is computed.
use kata_load_test.Base.{ℕ, ◌<◌, ◌≡◌, inl, inr, lt→ltb, ok, Outcome-cases}
use kata_load_test.Rand.Real.{Real}
use kata_load_test.Stats.State.{LatSample, LatencyStats}
use kata_load_test.Stats.Sort.{Sort}
use kata_load_test.Stats.Independence.{check_iid}

module _ (F : Real) (Q : Sort) where
  -- With at least one sample `check_iid` gives a number.
  pub check_iid-some :
      (s : LatencyStats)
      → 0 < s.size
      → (corr : F.R) × (x : ℕ → LatSample) × (check_iid F Q s ≡ ok (corr, x))
  unfolding check_iid
  check_iid-some s h = elim (Outcome-cases (check_iid F Q s)) [
    | inl (v, e) ↦ (v.0, v.1, e)
    | inr (why, e) ↦ let e' = rw (lt→ltb 0 s.size h) at e in absurd (cc e')
  ]
