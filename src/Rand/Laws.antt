-- ===== src/Rand/Laws.antt =====
-- Which operations of a generator can stop the agent.
use kata_load_test.Base.{◌≡◌, refl, ◌⊎◌, inl, inr, ok, stop, assert_failed}
use kata_load_test.Rand.Real.{Real}
use kata_load_test.Rand.Gen.{
  RandGen, fixed, exponential, pareto, gev, bimodal, lognormal, gamma, set_avg,
}

-- The distributions whose average can be set.
abbrev pub IsAdjustable : {R : Type 0} → RandGen R → Type 0
IsAdjustable (fixed a) = Unit {0}
IsAdjustable (exponential a) = Unit {0}
IsAdjustable (pareto p) = Unit {0}
IsAdjustable (gev p) = ⊥
IsAdjustable (bimodal p) = ⊥
IsAdjustable (lognormal p) = ⊥
IsAdjustable gamma = ⊥

module _ (F : Real) where
  open F use {R}

  -- Setting the average keeps the kind of an adjustable distribution, and stops the agent by an
  -- assertion for any other.
  pub set_avg_cases :
      (g : RandGen R) (avg : R)
      → ((g' : RandGen R) × (set_avg F g avg ≡ ok g') × IsAdjustable g × IsAdjustable g')
        ⊎ ((set_avg F g avg ≡ stop assert_failed) × (¬ IsAdjustable g))
  unfolding set_avg
  set_avg_cases (fixed a) avg = inl (_, refl, tt, tt)
  set_avg_cases (exponential a) avg = inl (_, refl, tt, tt)
  set_avg_cases (pareto p) avg = inl (_, refl, tt, tt)
  set_avg_cases (gev p) avg = inr (refl, λ h. h)
  set_avg_cases (bimodal p) avg = inr (refl, λ h. h)
  set_avg_cases (lognormal p) avg = inr (refl, λ h. h)
  set_avg_cases gamma avg = inr (refl, λ h. h)
