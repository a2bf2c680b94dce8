-- ===== src/Rand/Tests.antt =====
-- The generators over a simple arithmetic: integers in the place of doubles.
use kata_load_test.Base.{ℕ, ◌≡◌, refl, ◌++◌, some, List, [], ◌∷◌, arith, ok, stop, bad_access}
use kata_load_test.Base.Int.{ℤ, pos, ◌+ℤ◌, ◌-ℤ◌, ◌*ℤ◌, ltb_ℤ}
use kata_load_test.AppProto.Decimal.{value, value_from}
use kata_load_test.Rand.Real.{Real}
use kata_load_test.Rand.Strtok.{strtok}
use kata_load_test.Rand.Gen.{pareto}
use kata_load_test.Rand.Print.{pareto_of, print, meaning, init_rand-print}
use kata_load_test.Rand.Init.{init_rand, parse_param_3, pareto_text}
use kata_load_test.Rand.Again.{init_rand_again}

-- Enough for the parsing, which uses atof and divides; the functions of math.h are arbitrary.
abbrev pub integers : Real
integers = record {
  R = ℤ;
  of_int = λ n. n;
  literal = λ n d. pos n;
  add = λ a b. a +ℤ b;
  sub = λ a b. a -ℤ b;
  mul = λ a b. a *ℤ b;
  div = λ a b. a;
  neg = λ a. pos 0 -ℤ a;
  le = λ a b. ltb_ℤ a b;
  lt = λ a b. ltb_ℤ a b;
  pow = λ a b. a;
  log = λ a. a;
  exp = λ a. a;
  sqrt = λ a. a;
  floor = λ a. a;
  ceil = λ a. a;
  trunc = λ a. a;
  lround = λ a. a;
  atof = λ t. pos (value t);
}

abbrev digits : List ℕ
digits = b'7' ∷ []

abbrev spoilt : List ℕ
spoilt = pareto_text ++ 0 ∷ b'7' ∷ 0 ∷ b'7' ∷ 0 ∷ b'7' ∷ []

init_rand-print_example :
    (buf : List ℕ) × (init_rand integers (print (pareto_of digits digits digits))
      ≡ ok (some (meaning integers (pareto_of digits digits digits)), buf))
init_rand-print_example = init_rand-print integers (pareto_of digits digits digits) (ground arith)

init_rand_again_example : init_rand integers spoilt ≡ stop bad_access
unfolding parse_param_3 strtok value_from
init_rand_again_example =
    init_rand_again integers pareto_text (b'7' ∷ b':' ∷ b'7' ∷ b':' ∷ b'7' ∷ []) (ground arith) tt
      (pareto (record { loc = pos 7; scale = pos 7; shape = pos 7 })) spoilt
      (unfold init_rand in refl)
