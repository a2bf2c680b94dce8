-- ===== src/Agent/Load/Laws.antt =====
-- Setting the load, and what it makes of the option `-i`.
use kata_load_test.Base.{>>=-eq-ok, ok-injective, sym, ap, or_stop, bad_access}
use kata_load_test.Base.{
  ℕ, ◌≡◌, refl, ◌⊎◌, inl, inr, Option, some, List, ◌∷◌, ◌++◌, Outcome, ok, stop, assert_failed,
  bad_access, ◌>>=◌,
}
use kata_load_test.Base.Int.{pos}
use kata_load_test.Rand.Real.{Real}
use kata_load_test.Rand.Libc.{Libc}
use kata_load_test.Rand.Strtok.Tokens.{IsNonempty}
use kata_load_test.Rand.Strtok.Laws.{IsText}
use kata_load_test.Rand.Gen.{
  RandGen, fixed, exponential, pareto, gev, bimodal, lognormal, gamma, set_avg,
}
use kata_load_test.Rand.Init.{init_rand}
use kata_load_test.Rand.Again.{init_rand_again, again_result}
use kata_load_test.Rand.Laws.{IsAdjustable, set_avg_cases}
use kata_load_test.Agent.Args.{ParseState, or_null, parse_option}
use kata_load_test.Agent.Load.{set_reference_load}
use kata_load_test.Agent.Load.{reference_avg, thread_avg, set_load}

module _ (F : Real) (L : Libc) where
  open F use {R}

  -- Both generators of the interarrival times are there.
  abbrev pub HaveGenerators : ParseState R → RandGen R → RandGen R → Type 0
  HaveGenerators s g r = (s.cfg.idist ≡ some g) × (s.reference_ia_gen ≡ some r)

  -- When both generators of the interarrival times are there, either the averages of both can be
  -- set, and afterwards they still can; or the average of one of them cannot, and setting the load
  -- stops the agent by an assertion.
  pub set_load-cases :
      (s : ParseState R) (g r : RandGen R) (load : ℕ)
      → HaveGenerators s g r
      → ((s' : ParseState R) × (g' : RandGen R) × (r' : RandGen R) × (set_load F load s ≡ ok s')
          × HaveGenerators s' g' r'
          × IsAdjustable g'
          × IsAdjustable r')
        ⊎ ((set_load F load s ≡ stop assert_failed) × (¬ (IsAdjustable g × IsAdjustable r)))
  unfolding set_load
  set_load-cases s g r load (has_g, has_r) = elim (set_avg_cases F r (reference_avg F load)) [
    | inl (r', run_r, ok_r, ok_r') ↦
        elim (set_avg_cases F g (thread_avg F load s.cfg.thread_count)) [
          | inl (g', run_g, ok_g, ok_g') ↦ inl (
            record s { reference_ia_gen = some r'; cfg = record s.cfg { idist = some g' } },
            g',
            r',
            rw (has_r, has_g, run_r, run_g),
            (refl, refl),
            ok_g',
            ok_r',
          )
          | inr (run_g, bad_g) ↦ inr (rw (has_r, has_g, run_r, run_g), λ both. bad_g both.0)
        ]
    | inr (run_r, bad_r) ↦ inr (rw (has_r, run_r), λ both. bad_r both.1)
  ]

  -- What setting the load makes of a configuration after the option `-i` has made `g`.
  abbrev pub loaded : ℕ → RandGen R → ParseState R → Outcome (ParseState R)
  loaded load (fixed a) s = ok (record s {
    cfg = record s.cfg { idist = some (fixed (thread_avg F load s.cfg.thread_count)) };
    reference_ia_gen = some (fixed (reference_avg F load));
  })
  loaded load (exponential a) s =
      let inverse = λ (avg : R). exponential (F.div (F.of_int (pos 1)) avg) in
      ok (record s {
        cfg = record s.cfg { idist = some (inverse (thread_avg F load s.cfg.thread_count)) };
        reference_ia_gen = some (inverse (reference_avg F load));
      })
  loaded load (pareto p) s = stop bad_access
  loaded load (gev p) s = stop bad_access
  loaded load (bimodal p) s = stop bad_access
  loaded load (lognormal p) s = stop bad_access
  loaded load gamma s = stop bad_access

  -- The step of `or_null` that a load can follow.
  abbrev pub then_load : ℕ → Option (ParseState R) → Outcome (Option (ParseState R))
  then_load load r = or_null r λ s'. set_load F load s' >>= λ t. ok (some t)

  again_loaded :
      (name rest : List ℕ) (h : IsText name) (n : IsNonempty name) (g : RandGen R) (b : List ℕ)
      (s : ParseState R) (load : ℕ)
      → ((again_result F name rest h n g b >>= λ r.
            ok (some (record s { cfg = record s.cfg { idist = some g }; reference_ia_gen = r.0 })))
          >>= then_load load)
        ≡ (loaded load g s >>= λ t. ok (some t))
  unfolding set_load set_avg
  again_loaded name rest h n (fixed a) b s load = refl
  again_loaded name rest h n (exponential a) b s load = refl
  again_loaded name rest h n (pareto p) b s load = refl
  again_loaded name rest h n (gev p) b s load = refl
  again_loaded name rest h n (bimodal p) b s load = refl
  again_loaded name rest h n (lognormal p) b s load = refl
  again_loaded name rest h n gamma b s load = refl

  -- The option `-i` with a name, a colon and more, of which `init_rand` makes a generator, and then a
  -- load: a fixed or exponential distribution gets the average 1e6 / (load / threads), and the
  -- reference distribution, whose parameter was lost, the average 1e6 / load; with any other
  -- distribution the agent reads through a null pointer.
  pub interarrival-set_load :
      (name rest : List ℕ)
      → IsText name
      → IsNonempty name
      → (g : RandGen R) (b : List ℕ) → init_rand F (name ++ b':' ∷ rest) ≡ ok (some g, b)
      → (s : ParseState R) (load : ℕ)
      → (parse_option F L (record { c = b'i'; optarg = name ++ b':' ∷ rest }) s >>= then_load load)
        ≡ (loaded load g s >>= λ t. ok (some t))
  unfolding parse_option
  interarrival-set_load name rest h n g b e s load =
      rw (e, init_rand_again F name rest h n g b e) (again_loaded name rest h n g b s load)

-- The load is all that `set_load` changes: the agent type stays.
pub set_load-atype :
    (F : Real) (load : ℕ) (s s' : ParseState F.R)
    → set_load F load s ≡ ok s'
    → s'.cfg.atype ≡ s.cfg.atype
unfolding set_load
set_load-atype F load s s' e =
    let (reference, _, e1) = >>=-eq-ok (set_reference_load F load s.reference_ia_gen) _ e in
    let (gen, _, e2) = >>=-eq-ok (or_stop s.cfg.idist bad_access) _ e1 in
    let (gen', _, e3) = >>=-eq-ok (set_avg F gen (thread_avg F load s.cfg.thread_count)) _ e2 in
    sym (ap (λ x. x.cfg.atype) (ok-injective _ s' e3))
