-- ===== src/Rand/Print.antt =====
-- Descriptions as a user writes them, and the generators that they stand for.
use kata_load_test.Base.{ℕ, ◌≡◌, some, List, [], ◌∷◌, ◌++◌, ok, arith}
use kata_load_test.Base.Int.{pos}
use kata_load_test.Rand.Real.{Real}
use kata_load_test.Rand.Strtok.Laws.{IsText, strtok-colon, strtok-all}
use kata_load_test.Rand.Strtok.Tokens.{IsNonempty}
use kata_load_test.Rand.Gen.{RandGen, fixed, exponential, pareto, gev, bimodal, lognormal}
use kata_load_test.Rand.Init.{
  parse_param_1, parse_param_2, parse_param_3, init_rand, fixed_text, exp_text, pareto_text,
  gev_text, bimodal_text, lognorm_text,
}

-- The parameters are texts that atof reads.
pub data Description : Type 0 where
  fixed_of exp_of : List ℕ → Description
  pareto_of gev_of bimodal_of_texts : List ℕ → List ℕ → List ℕ → Description
  lognorm_of : List ℕ → List ℕ → Description

abbrev pub print_1 : List ℕ → List ℕ → List ℕ
print_1 name a = name ++ b':' ∷ a

abbrev pub print_2 : List ℕ → List ℕ → List ℕ → List ℕ
print_2 name a b = name ++ b':' ∷ (a ++ b':' ∷ b)

abbrev pub print_3 : List ℕ → List ℕ → List ℕ → List ℕ → List ℕ
print_3 name a b c = name ++ b':' ∷ (a ++ b':' ∷ (b ++ b':' ∷ c))

unfoldable pub print : Description → List ℕ
print (fixed_of a) = print_1 fixed_text a
print (exp_of a) = print_1 exp_text a
print (pareto_of a b c) = print_3 pareto_text a b c
print (gev_of a b c) = print_3 gev_text a b c
print (bimodal_of_texts a b c) = print_3 bimodal_text a b c
print (lognorm_of a b) = print_2 lognorm_text a b

-- A parameter: not empty, without NUL or colon.
abbrev pub IsParam : List ℕ → Type 0
IsParam t = IsText t × IsNonempty t

abbrev pub IsDescription : Description → Type 0
IsDescription (fixed_of a) = IsParam a
IsDescription (exp_of a) = IsParam a
IsDescription (pareto_of a b c) = IsParam a × IsParam b × IsParam c
IsDescription (gev_of a b c) = IsParam a × IsParam b × IsParam c
IsDescription (bimodal_of_texts a b c) = IsParam a × IsParam b × IsParam c
IsDescription (lognorm_of a b) = IsParam a × IsParam b

module _ (F : Real) where
  open F use {R}

  abbrev pub meaning : Description → RandGen R
  meaning (fixed_of a) = fixed (F.atof a)
  meaning (exp_of a) = exponential (F.div (F.of_int (pos 1)) (F.atof a))
  meaning (pareto_of a b c) = pareto (record { loc = F.atof a; scale = F.atof b; shape = F.atof c })
  meaning (gev_of a b c) = gev (record { loc = F.atof a; scale = F.atof b; shape = F.atof c })
  meaning (bimodal_of_texts a b c) =
      bimodal (record { low = F.atof a; up = F.atof b; prob = F.atof c })
  meaning (lognorm_of a b) = lognormal (record { mu = F.atof a; sigma = F.atof b })

  module _ (name : List ℕ) (h : IsText name) (n : IsNonempty name) where
    parse_param_1-print :
        (a : List ℕ)
        → IsParam a
        → parse_param_1 F (print_1 name a) ≡ (record { a = F.atof a }, name ++ 0 ∷ [] ++ a ++ [])
    unfolding parse_param_1
    parse_param_1-print a ha =
        rw (strtok-colon [] name a h n, strtok-all (name ++ 0 ∷ []) a ha.0 ha.1)

    parse_param_2-print :
        (a b : List ℕ)
        → IsParam a
        → IsParam b
        → (buf : List ℕ) × (parse_param_2 F (print_2 name a b)
            ≡ ok (record { a = F.atof a; b = F.atof b }, buf))
    unfolding parse_param_2
    parse_param_2-print a b ha hb = (
      name ++ 0 ∷ [] ++ a ++ 0 ∷ [] ++ b ++ [],
      rw (
        strtok-colon [] name (a ++ b':' ∷ b) h n,
        strtok-colon (name ++ 0 ∷ []) a b ha.0 ha.1,
        strtok-all (name ++ 0 ∷ [] ++ a ++ 0 ∷ []) b hb.0 hb.1,
      ),
    )

    parse_param_3-print :
        (a b c : List ℕ)
        → IsParam a
        → IsParam b
        → IsParam c
        → (buf : List ℕ) × (parse_param_3 F (print_3 name a b c)
            ≡ ok (record { a = F.atof a; b = F.atof b; c = F.atof c }, buf))
    unfolding parse_param_3
    parse_param_3-print a b c ha hb hc = (
      name ++ 0 ∷ [] ++ a ++ 0 ∷ [] ++ b ++ 0 ∷ [] ++ c ++ [],
      rw (
        strtok-colon [] name (a ++ b':' ∷ (b ++ b':' ∷ c)) h n,
        strtok-colon (name ++ 0 ∷ []) a (b ++ b':' ∷ c) ha.0 ha.1,
        strtok-colon (name ++ 0 ∷ [] ++ a ++ 0 ∷ []) b c hb.0 hb.1,
        strtok-all (name ++ 0 ∷ [] ++ a ++ 0 ∷ [] ++ b ++ 0 ∷ []) c hc.0 hc.1,
      ),
    )

  -- A description of a generator of the kinds fixed, exp, pareto, gev, bimodal and lognorm, with as
  -- many parameters as the kind has, none of them empty or with a NUL or a colon, is read back:
  -- `init_rand` makes the generator of that kind with what atof gives for the parameters.
  pub init_rand-print :
      (d : Description)
      → IsDescription d
      → (buf : List ℕ) × (init_rand F (print d) ≡ ok (some (meaning d), buf))
  unfolding init_rand print
  init_rand-print (fixed_of a) h =
      (fixed_text ++ 0 ∷ [] ++ a ++ [], rw (parse_param_1-print fixed_text (ground arith) tt a h))
  init_rand-print (exp_of a) h =
      (exp_text ++ 0 ∷ [] ++ a ++ [], rw (parse_param_1-print exp_text (ground arith) tt a h))
  init_rand-print (pareto_of a b c) h =
      let (buf, run) = parse_param_3-print pareto_text (ground arith) tt a b c h.0 h.1 h.2 in
      (buf, rw run)
  init_rand-print (gev_of a b c) h =
      let (buf, run) = parse_param_3-print gev_text (ground arith) tt a b c h.0 h.1 h.2 in
      (buf, rw run)
  init_rand-print (bimodal_of_texts a b c) h =
      let (buf, run) = parse_param_3-print bimodal_text (ground arith) tt a b c h.0 h.1 h.2 in
      (buf, rw run)
  init_rand-print (lognorm_of a b) h =
      let (buf, run) = parse_param_2-print lognorm_text (ground arith) tt a b h.0 h.1 in
      (buf, rw run)
