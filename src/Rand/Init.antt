-- ===== src/Rand/Init.antt =====
-- `init_rand`: a generator from its description. strtok writes into the description, so the buffer
-- is part of the result.
use kata_load_test.Base.{
  ℕ, Option, none, some, List, [], ◌∷◌, if◌then◌else◌, Outcome, ok, stop, assert_failed, bad_access,
  ◌>>=◌, or_stop,
}
use kata_load_test.Base.Int.{pos}
use kata_load_test.Rand.Real.{Real}
use kata_load_test.Rand.Strtok.{Scan, buffer_of, at_string, is_colon, strtok, has_prefix, is_string}
use kata_load_test.Rand.Gen.{
  ParamLss, BimodalParam, LognormParams, RandGen, fixed, exponential, pareto, gev, bimodal,
  lognormal, set_avg,
}

-- `tok = strtok(.., ":")`.
abbrev pub next_token : Scan → Option (List ℕ) × Scan
next_token s = strtok is_colon s

pub record Param1 (R : Type 0) : Type 0 where
  pub a : R

pub record Param2 (R : Type 0) : Type 0 where
  pub a : R
  pub b : R

pub record Param3 (R : Type 0) : Type 0 where
  pub a : R
  pub b : R
  pub c : R

abbrev pub fixed_text : List ℕ
fixed_text = b'f' ∷ b'i' ∷ b'x' ∷ b'e' ∷ b'd' ∷ []

abbrev pub exp_text : List ℕ
exp_text = b'e' ∷ b'x' ∷ b'p' ∷ []

abbrev pub pareto_text : List ℕ
pareto_text = b'p' ∷ b'a' ∷ b'r' ∷ b'e' ∷ b't' ∷ b'o' ∷ []

abbrev pub gev_text : List ℕ
gev_text = b'g' ∷ b'e' ∷ b'v' ∷ []

abbrev pub fb_key_text : List ℕ
fb_key_text = b'f' ∷ b'b' ∷ b'_' ∷ b'k' ∷ b'e' ∷ b'y' ∷ []

abbrev pub fb_ia_text : List ℕ
fb_ia_text = b'f' ∷ b'b' ∷ b'_' ∷ b'i' ∷ b'a' ∷ []

abbrev pub fb_val_text : List ℕ
fb_val_text = b'f' ∷ b'b' ∷ b'_' ∷ b'v' ∷ b'a' ∷ b'l' ∷ []

abbrev pub bimodal_text : List ℕ
bimodal_text = b'b' ∷ b'i' ∷ b'm' ∷ b'o' ∷ b'd' ∷ b'a' ∷ b'l' ∷ []

abbrev pub lognorm_text : List ℕ
lognorm_text = b'l' ∷ b'o' ∷ b'g' ∷ b'n' ∷ b'o' ∷ b'r' ∷ b'm' ∷ []

abbrev pub gamma_text : List ℕ
gamma_text = b'g' ∷ b'a' ∷ b'm' ∷ b'm' ∷ b'a' ∷ []

-- The texts that the descriptions fb_key, fb_ia and fb_val stand for.
abbrev pub fb_key_params : List ℕ
fb_key_params =
    b'g' ∷ b'e' ∷ b'v' ∷ b':' ∷ b'3' ∷ b'0' ∷ b'.' ∷ b'7' ∷ b'9' ∷ b'8' ∷ b'4' ∷ b':' ∷ b'8' ∷ b'.'
    ∷ b'2' ∷ b'0' ∷ b'4' ∷ b'4' ∷ b'9' ∷ b':' ∷ b'0' ∷ b'.' ∷ b'0' ∷ b'7' ∷ b'8' ∷ b'6' ∷ b'8'
    ∷ b'8' ∷ []

abbrev pub fb_ia_params : List ℕ
fb_ia_params =
    b'g' ∷ b'p' ∷ b'a' ∷ b'r' ∷ b':' ∷ b'0' ∷ b':' ∷ b'1' ∷ b'6' ∷ b'.' ∷ b'0' ∷ b'2' ∷ b'9' ∷ b'2'
    ∷ b':' ∷ b'0' ∷ b'.' ∷ b'1' ∷ b'5' ∷ b'4' ∷ b'9' ∷ b'7' ∷ b'1' ∷ []

abbrev pub fb_val_params : List ℕ
fb_val_params =
    b'g' ∷ b'p' ∷ b'a' ∷ b'r' ∷ b':' ∷ b'1' ∷ b'5' ∷ b'.' ∷ b'0' ∷ b':' ∷ b'2' ∷ b'1' ∷ b'4' ∷ b'.'
    ∷ b'4' ∷ b'7' ∷ b'6' ∷ b':' ∷ b'0' ∷ b'.' ∷ b'3' ∷ b'4' ∷ b'8' ∷ b'2' ∷ b'3' ∷ b'8' ∷ []

-- Which branch of `init_rand` a description takes.
pub data Kind : Type 0 where
  fixed_kind exp_kind pareto_kind gev_kind fb_key_kind fb_ia_kind fb_val_kind : Kind
  bimodal_kind lognorm_kind gamma_kind unknown_kind : Kind

unfoldable pub kind_of : List ℕ → Kind
kind_of buf =
    if has_prefix fixed_text buf
    then fixed_kind
    else if has_prefix exp_text buf
    then exp_kind
    else if has_prefix pareto_text buf
    then pareto_kind
    else if has_prefix gev_text buf
    then gev_kind
    else if is_string fb_key_text buf
    then fb_key_kind
    else if is_string fb_ia_text buf
    then fb_ia_kind
    else if is_string fb_val_text buf
    then fb_val_kind
    else if has_prefix bimodal_text buf
    then bimodal_kind
    else if has_prefix lognorm_text buf
    then lognorm_kind
    else if has_prefix gamma_text buf
    then gamma_kind
    else unknown_kind

module _ (F : Real) where
  open F use {R}

  -- atof(NULL) reads through a null pointer.
  abbrev pub atof_token : Option (List ℕ) → Outcome R
  atof_token o = or_stop o bad_access >>= λ t. ok (F.atof t)

  abbrev pub number_or_zero : Option (List ℕ) → R
  number_or_zero none = F.of_int (pos 0)
  number_or_zero (some t) = F.atof t

  -- With the buffer afterwards.
  unfoldable pub parse_param_1 : List ℕ → Param1 R × List ℕ
  parse_param_1 buf =
      let name = next_token (at_string buf) in
      let tok = next_token name.1 in (record { a = number_or_zero tok.0 }, buffer_of tok.1)

  unfoldable pub parse_param_2 : List ℕ → Outcome (Param2 R × List ℕ)
  parse_param_2 buf = do
    let name = next_token (at_string buf)
    let tok1 = next_token name.1
    a ← atof_token tok1.0
    let tok2 = next_token tok1.1
    b ← atof_token tok2.0
    ok (record { a = a; b = b }, buffer_of tok2.1)

  unfoldable pub parse_param_3 : List ℕ → Outcome (Param3 R × List ℕ)
  parse_param_3 buf = do
    let name = next_token (at_string buf)
    let tok1 = next_token name.1
    a ← atof_token tok1.0
    let tok2 = next_token tok1.1
    b ← atof_token tok2.0
    let tok3 = next_token tok2.1
    c ← atof_token tok3.0
    ok (record { a = a; b = b; c = c }, buffer_of tok3.1)

  -- `fixed_init` and `exp_init` set the average to the parameter.
  unfoldable pub fixed_init : Param1 R → Outcome (RandGen R)
  unfolding set_avg
  fixed_init p = set_avg F (fixed p.a) p.a

  unfoldable pub exp_init : Param1 R → Outcome (RandGen R)
  unfolding set_avg
  exp_init p = set_avg F (exponential p.a) p.a

  abbrev pub lss_of : Param3 R → ParamLss R
  lss_of p = record { loc = p.a; scale = p.b; shape = p.c }

  abbrev pub bimodal_of : Param3 R → BimodalParam R
  bimodal_of p = record { low = p.a; up = p.b; prob = p.c }

  abbrev pub lognormal_of : Param2 R → LognormParams R
  lognormal_of p = record { mu = p.a; sigma = p.b }

  abbrev pub gpar_init : Param3 R → RandGen R
  gpar_init p = pareto (lss_of p)

  abbrev pub gev_init : Param3 R → RandGen R
  gev_init p = gev (lss_of p)

  abbrev pub bimodal_init : Param3 R → RandGen R
  bimodal_init p = bimodal (bimodal_of p)

  abbrev pub lognormal_init : Param2 R → RandGen R
  lognormal_init p = lognormal (lognormal_of p)

  abbrev pub gamma_init : Param2 R → Outcome (Option (RandGen R) × List ℕ)
  gamma_init p = stop assert_failed

  -- A null pointer is `none`.
  abbrev pub with_3 : (Param3 R → RandGen R) → List ℕ → Outcome (Option (RandGen R) × List ℕ)
  with_3 make buf = parse_param_3 buf >>= λ w. ok (some (make w.0), w.1)

  -- The texts of fb_key, fb_ia and fb_val are arrays of their own: the description stays.
  abbrev pub with_text :
      (Param3 R → RandGen R) → List ℕ → List ℕ → Outcome (Option (RandGen R) × List ℕ)
  with_text make text buf = parse_param_3 text >>= λ w. ok (some (make w.0), buf)

  -- The init function for each kind.
  unfoldable pub init_kind : Kind → List ℕ → Outcome (Option (RandGen R) × List ℕ)
  unfolding fixed_init exp_init
  init_kind fixed_kind buf =
      fixed_init (parse_param_1 buf).0 >>= λ g. ok (some g, (parse_param_1 buf).1)
  init_kind exp_kind buf =
      exp_init (parse_param_1 buf).0 >>= λ g. ok (some g, (parse_param_1 buf).1)
  init_kind pareto_kind buf = with_3 gpar_init buf
  init_kind gev_kind buf = with_3 gev_init buf
  init_kind fb_key_kind buf = with_text gev_init fb_key_params buf
  init_kind fb_ia_kind buf = with_text gpar_init fb_ia_params buf
  init_kind fb_val_kind buf = with_text gpar_init fb_val_params buf
  init_kind bimodal_kind buf = with_3 bimodal_init buf
  init_kind lognorm_kind buf = parse_param_2 buf >>= λ w. ok (some (lognormal_init w.0), w.1)
  init_kind gamma_kind buf = parse_param_2 buf >>= λ w. gamma_init w.0
  init_kind unknown_kind buf = ok (none, buf)

  unfoldable pub init_rand : List ℕ → Outcome (Option (RandGen R) × List ℕ)
  unfolding init_kind kind_of
  init_rand buf = init_kind (kind_of buf) buf
