-- ===== src/Rand/Cpp.antt =====
-- lancet/agents/cpp_rand.cc: the random numbers of the C++ library. Its engine and its
-- distributions are parameters; an object is changed by the number that is drawn from it.
use kata_load_test.Base.{ℕ, ◌≡◌, refl, Outcome, ok, stop, bad_access}

pub record CppRandom (R : Type 0) : Type 1 where
  pub Engine : Type 0
  pub Normal : Type 0
  pub Gamma : Type 0
  -- `std::mt19937` from what `std::random_device` gives.
  pub engine : ℕ → Engine
  pub normal : Normal
  pub gamma : R → R → Gamma
  pub draw_normal : Normal → Engine → R × Normal × Engine
  pub draw_gamma : Gamma → Engine → R × Gamma × Engine

module _ {R : Type 0} (C : CppRandom R) where
  open C use {Engine, Normal, Gamma}

  -- What a `void *` of `struct cpp_gen` points to.
  pub data Object : Type 0 where
    an_engine : Engine → Object
    a_normal : Normal → Object
    a_gamma : Gamma → Object

  -- `struct cpp_gen`
  pub record CppGen : Type 0 where
    pub d : Object
    pub gen : Object

  abbrev pub new_normal_gen : ℕ → CppGen
  new_normal_gen rd = record { d = a_normal C.normal; gen = an_engine (C.engine rd) }

  abbrev pub new_gamma_gen : R → R → ℕ → CppGen
  new_gamma_gen alpha beta rd = record {
    d = a_gamma (C.gamma alpha beta);
    gen = an_engine (C.engine rd);
  }

  -- The casts of the two pointers. An object that is used as one of another type is a bad access.
  abbrev pub draw_normal_with : Object → Object → Outcome (R × CppGen)
  draw_normal_with (a_normal n) (an_engine e) =
      let (x, n', e') = C.draw_normal n e in ok (x, record { d = a_normal n'; gen = an_engine e' })
  draw_normal_with _ _ = stop bad_access

  unfoldable pub get_normal_rand : CppGen → Outcome (R × CppGen)
  get_normal_rand ng = draw_normal_with ng.d ng.gen

  abbrev pub draw_gamma_with : Object → Object → Outcome (R × CppGen)
  draw_gamma_with (a_gamma g) (an_engine e) =
      let (x, g', e') = C.draw_gamma g e in ok (x, record { d = a_gamma g'; gen = an_engine e' })
  draw_gamma_with _ _ = stop bad_access

  -- Both pointers are read from `gen`.
  unfoldable pub get_gamma_rand : CppGen → Outcome (R × CppGen)
  get_gamma_rand gg = draw_gamma_with gg.gen gg.gen

  -- However a generator is made up, no gamma number can be drawn from it.
  pub get_gamma_rand-fails : (gg : CppGen) → get_gamma_rand gg ≡ stop bad_access
  unfolding get_gamma_rand
  get_gamma_rand-fails gg = of_object gg.gen
    where
      of_object : (o : Object) → draw_gamma_with o o ≡ stop bad_access
      of_object (an_engine e) = refl
      of_object (a_normal n) = refl
      of_object (a_gamma g) = refl
