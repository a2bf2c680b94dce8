-- ===== src/Rand/Again/Cut.antt =====
-- A description whose name is cut off.
use kata_load_test.Base.{ℕ, ◌≡◌, List, [], ◌∷◌, ◌++◌, stop, bad_access}
use kata_load_test.Base.Int.{pos}
use kata_load_test.Rand.Real.{Real}
use kata_load_test.Rand.Strtok.Laws.{IsText, strtok-nul, strtok-none}
use kata_load_test.Rand.Strtok.Tokens.{IsNonempty}
use kata_load_test.Rand.Init.{parse_param_1, parse_param_2, parse_param_3}

module _ (F : Real) where
  open F use {R}

  -- A description whose name is cut off has no parameters.
  module _ (name stuff : List ℕ) (h : IsText name) (n : IsNonempty name) where
    abbrev pub cut : List ℕ
    cut = name ++ 0 ∷ stuff

    pub parse_param_1-cut : parse_param_1 F cut ≡ (record { a = F.of_int (pos 0) }, cut)
    unfolding parse_param_1
    parse_param_1-cut = rw (strtok-nul [] name stuff h n, strtok-none name stuff)

    pub parse_param_2-cut : parse_param_2 F cut ≡ stop bad_access
    unfolding parse_param_2
    parse_param_2-cut = rw (strtok-nul [] name stuff h n, strtok-none name stuff)

    pub parse_param_3-cut : parse_param_3 F cut ≡ stop bad_access
    unfolding parse_param_3
    parse_param_3-cut = rw (strtok-nul [] name stuff h n, strtok-none name stuff)
