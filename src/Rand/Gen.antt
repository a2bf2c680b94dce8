-- ===== src/Rand/Gen.antt =====
-- The distributions: what a generator holds, how a draw is made and how its average is set.
use kata_load_test.Base.{Outcome, ok, stop, assert_failed, if◌then◌else◌}
use kata_load_test.Base.Int.{pos}
use kata_load_test.Rand.Real.{Real}

-- `struct param_lss`; a `struct param_3` is read as one, field by field.
pub record ParamLss (R : Type 0) : Type 0 where
  pub loc : R
  pub scale : R
  pub shape : R

pub record BimodalParam (R : Type 0) : Type 0 where
  pub low : R
  pub up : R
  pub prob : R

pub record LognormParams (R : Type 0) : Type 0 where
  pub sigma : R
  pub mu : R

-- `struct rand_gen`: the function pointers that an init function sets, by the distribution, and
-- what `params` points to.
pub data RandGen (R : Type 0) : Type 0 where
  fixed : R → RandGen R
  exponential : R → RandGen R
  pareto : ParamLss R → RandGen R
  gev : ParamLss R → RandGen R
  bimodal : BimodalParam R → RandGen R
  lognormal : LognormParams R → RandGen R
  gamma : RandGen R

module _ (F : Real) where
  open F use {R}

  abbrev one : R
  one = F.of_int (pos 1)

  abbrev pub fixed_inv_cdf : R → R → R
  fixed_inv_cdf a y = a

  abbrev pub exp_inv_cdf : R → R → R
  exp_inv_cdf lambda y = F.div (F.neg (F.log y)) lambda

  abbrev pub gpar_inv_cdf : ParamLss R → R → R
  gpar_inv_cdf p y =
      F.add p.loc (F.div (F.mul p.scale (F.sub (F.pow (F.sub one y) (F.neg p.shape)) one)) p.shape)

  abbrev pub gev_inv_cdf : ParamLss R → R → R
  gev_inv_cdf p y =
      F.add p.loc
        (F.div (F.mul p.scale (F.sub (F.pow (F.neg (F.exp y)) (F.neg p.shape)) one)) p.shape)

  abbrev pub bimodal_inv_cdf : BimodalParam R → R → R
  bimodal_inv_cdf p y = if F.le y p.prob then p.low else p.up

  abbrev pub lognorm_inv_cdf : R → Outcome R
  lognorm_inv_cdf y = stop assert_failed

  abbrev pub gamma_inv_cdf : R → Outcome R
  gamma_inv_cdf y = stop assert_failed

  unfoldable pub inv_cdf : RandGen R → R → Outcome R
  inv_cdf (fixed a) y = ok (fixed_inv_cdf a y)
  inv_cdf (exponential lambda) y = ok (exp_inv_cdf lambda y)
  inv_cdf (pareto p) y = ok (gpar_inv_cdf p y)
  inv_cdf (gev p) y = ok (gev_inv_cdf p y)
  inv_cdf (bimodal p) y = ok (bimodal_inv_cdf p y)
  inv_cdf (lognormal p) y = lognorm_inv_cdf y
  inv_cdf gamma y = gamma_inv_cdf y

  abbrev pub lognorm_generate : LognormParams R → R → R
  lognorm_generate p y = F.exp (F.add p.mu (F.mul y p.sigma))

  -- The result goes through an int.
  abbrev pub gamma_generate : R → R
  gamma_generate y = F.of_int (F.trunc y)

  -- `draw` is what drand48, get_normal_rand or get_gamma_rand gives.
  unfoldable pub generate : RandGen R → R → Outcome R
  unfolding inv_cdf
  generate (fixed a) draw = inv_cdf (fixed a) draw
  generate (exponential lambda) draw = inv_cdf (exponential lambda) draw
  generate (pareto p) draw = inv_cdf (pareto p) draw
  generate (gev p) draw = inv_cdf (gev p) draw
  generate (bimodal p) draw = inv_cdf (bimodal p) draw
  generate (lognormal p) draw = ok (lognorm_generate p draw)
  generate gamma draw = ok (gamma_generate draw)

  abbrev pub gpar_set_avg : R → ParamLss R → ParamLss R
  gpar_set_avg avg p = record p { scale = F.mul (F.sub avg p.loc) (F.sub one p.shape) }

  abbrev pub fixed_set_avg : R → RandGen R
  fixed_set_avg avg = fixed avg

  abbrev pub exp_set_avg : R → RandGen R
  exp_set_avg avg = exponential (F.div one avg)

  abbrev pub gev_set_avg : R → Outcome (RandGen R)
  gev_set_avg avg = stop assert_failed

  abbrev pub bimodal_set_avg : R → Outcome (RandGen R)
  bimodal_set_avg avg = stop assert_failed

  abbrev pub lognorm_set_avg : R → Outcome (RandGen R)
  lognorm_set_avg avg = stop assert_failed

  abbrev pub gamma_set_avg : R → Outcome (RandGen R)
  gamma_set_avg avg = stop assert_failed

  unfoldable pub set_avg : RandGen R → R → Outcome (RandGen R)
  set_avg (fixed a) avg = ok (fixed_set_avg avg)
  set_avg (exponential lambda) avg = ok (exp_set_avg avg)
  set_avg (pareto p) avg = ok (pareto (gpar_set_avg avg p))
  set_avg (gev p) avg = gev_set_avg avg
  set_avg (bimodal p) avg = bimodal_set_avg avg
  set_avg (lognormal p) avg = lognorm_set_avg avg
  set_avg gamma avg = gamma_set_avg avg
