-- ===== src/Rand/Again.antt =====
-- What becomes of a description that is used twice, as `parse_arguments` of lancet/agents/args.c does
-- with the argument of `-i`: strtok has written a NUL behind the name.
pub mod Kinds
pub mod Cut
use mathlib.Core.List.{append-nil, append_assoc}
use kata_load_test.Base.{
  ℕ, ◌≡◌, ◌≢◌, refl, ap, sym, ◌∙◌, subst, Bool, true, false, Option, none, some, List, [], ◌∷◌,
  ◌++◌, arith, if◌then◌else◌, Bool-cases, inl, inr, Outcome, ok, stop, bad_access, ◌>>=◌, >>=-eq-ok,
  ok-injective, or_stop,
}
use mathlib.Core.Option
use kata_load_test.Base.Int.{pos}
use kata_load_test.Rand.Real.{Real}
use kata_load_test.Rand.Strtok.{Scan, buffer_of, at_string, is_colon, strtok, has_prefix, is_string}
use kata_load_test.Rand.Strtok.Laws.{
  IsText, strtok-colon, strtok-nul, strtok-none, strtok-done, buffer-strtok, has_prefix-name,
  is_string-colon, is_string-nul,
}
use kata_load_test.Rand.Strtok.Tokens.{IsNonempty}
use kata_load_test.Rand.Gen.{
  RandGen, fixed, exponential, pareto, gev, bimodal, lognormal, gamma, set_avg,
}
use kata_load_test.Rand.Init.{
  Kind, fixed_kind, exp_kind, pareto_kind, gev_kind, fb_key_kind, fb_ia_kind, fb_val_kind,
  bimodal_kind, lognorm_kind, gamma_kind, unknown_kind, kind_of, init_kind, init_rand, fixed_text,
  exp_text, pareto_text, gev_text, fb_key_text, fb_ia_text, fb_val_text, bimodal_text, lognorm_text,
  gamma_text, Param1, Param2, Param3, with_3, lss_of, bimodal_of, lognormal_of, parse_param_1,
  parse_param_2, parse_param_3, next_token, atof_token, number_or_zero, fixed_init, exp_init,
}
use kata_load_test.Rand.Again.Kinds.{kind_of-again, kind_of-colon}
use kata_load_test.Rand.Again.Cut.{parse_param_1-cut, parse_param_2-cut, parse_param_3-cut}

module _ (F : Real) where
  open F use {R}

  -- Parsing cuts off the name.
  module _ (name rest : List ℕ) (h : IsText name) (n : IsNonempty name) where
    abbrev whole : List ℕ
    whole = name ++ b':' ∷ rest

    behind_name : Scan
    behind_name = record { done = name ++ 0 ∷ []; rest = rest }

    -- A buffer in which the name is cut off.
    IsCut : List ℕ → Type 0
    IsCut buf = (stuff : List ℕ) × (buf ≡ name ++ 0 ∷ stuff)

    IsCut-done : (s : Scan) → (m : List ℕ) × (s.done ≡ (name ++ 0 ∷ []) ++ m) → IsCut (buffer_of s)
    unfolding IsCut
    IsCut-done s (m, e) = (
      m ++ s.rest,
      ap (λ d. d ++ s.rest) e
          ∙ append_assoc (name ++ 0 ∷ []) m s.rest
          ∙ append_assoc name (0 ∷ []) (m ++ s.rest),
    )

    Passed : Scan → Type 0
    Passed s = (m : List ℕ) × (s.done ≡ (name ++ 0 ∷ []) ++ m)

    Passed-start : Passed (next_token (at_string whole)).1
    unfolding Passed
    Passed-start = ([], rw (strtok-colon [] name rest h n) (sym (append-nil (name ++ 0 ∷ []))))

    abbrev first : Scan
    first = (next_token (at_string whole)).1

    abbrev second : Scan
    second = (next_token first).1

    abbrev third : Scan
    third = (next_token second).1

    abbrev fourth : Scan
    fourth = (next_token third).1

    Passed-next : (s : Scan) → Passed s → Passed (next_token s).1
    unfolding Passed
    Passed-next s (m, e) =
        let (m', e') = strtok-done s in
        (m ++ m', e' ∙ ap (λ d. d ++ m') e ∙ append_assoc (name ++ 0 ∷ []) m m')

    parse_param_1-IsCut : IsCut (parse_param_1 F whole).1
    unfolding parse_param_1 Passed
    parse_param_1-IsCut = IsCut-done second (Passed-next first Passed-start)

    parse_param_2-IsCut : (p : Param2 R) (b : List ℕ) → parse_param_2 F whole ≡ ok (p, b) → IsCut b
    unfolding parse_param_2 Passed
    parse_param_2-IsCut p b e =
        let (x, _, e1) = >>=-eq-ok (atof_token F (next_token first).0) _ e in
        let (y, _, e2) = >>=-eq-ok (atof_token F (next_token second).0) _ e1 in
        subst IsCut (ap (λ w. w.1) (ok-injective _ (p, b) e2))
          (IsCut-done third (Passed-next second (Passed-next first Passed-start)))

    parse_param_3-IsCut : (p : Param3 R) (b : List ℕ) → parse_param_3 F whole ≡ ok (p, b) → IsCut b
    unfolding parse_param_3 Passed
    parse_param_3-IsCut p b e =
        let (x, _, e1) = >>=-eq-ok (atof_token F (next_token first).0) _ e in
        let (y, _, e2) = >>=-eq-ok (atof_token F (next_token second).0) _ e1 in
        let (z, _, e3) = >>=-eq-ok (atof_token F (next_token third).0) _ e2 in
        subst IsCut (ap (λ w. w.1) (ok-injective _ (p, b) e3)) (
          IsCut-done fourth
            (Passed-next third (Passed-next second (Passed-next first Passed-start))))

    -- What a second `init_rand` makes of a buffer from which the first has made `g`.
    abbrev pub again_result : RandGen R → List ℕ → Outcome (Option (RandGen R) × List ℕ)
    again_result (fixed a) b = ok (some (fixed (F.of_int (pos 0))), b)
    again_result (exponential a) b =
        ok (some (exponential (F.div (F.of_int (pos 1)) (F.of_int (pos 0)))), b)
    again_result (pareto p) b = stop bad_access
    again_result (gev p) b = stop bad_access
    again_result (bimodal p) b = stop bad_access
    again_result (lognormal p) b = stop bad_access
    again_result gamma b = stop bad_access

    init_rand-cut :
        (k : Kind) (b : List ℕ)
        → kind_of whole ≡ k
        → k ≢ unknown_kind
        → IsCut b
        → (stuff : List ℕ) × (b ≡ name ++ 0 ∷ stuff)
          × (init_rand F b ≡ init_kind F k (name ++ 0 ∷ stuff))
    unfolding init_rand IsCut
    init_rand-cut k b e known (stuff, cut_off) =
        (stuff, cut_off, rw (cut_off, kind_of-again name rest stuff h (λ u. known (sym e ∙ u)), e))

    -- The kinds with three parameters.
    again_3 :
        (make : Param3 R → RandGen R) (k : Kind) (g : RandGen R) (b : List ℕ)
        → ((buf : List ℕ) → init_kind F k buf ≡ with_3 F make buf)
        → ((p : Param3 R) → again_result (make p) b ≡ stop bad_access)
        → kind_of whole ≡ k
        → k ≢ unknown_kind
        → with_3 F make whole ≡ ok (some g, b)
        → init_rand F b ≡ again_result g b
    again_3 make k g b each stops kind known e =
        let ((p, b'), run, last) = >>=-eq-ok (parse_param_3 F whole) _ e in
        let same = ok-injective (some (make p), b') (some g, b) last in
        let (stuff, _, runs) =
          init_rand-cut k b kind known
            (subst IsCut (ap (λ w. w.1) same) (parse_param_3-IsCut p b' run)) in
        runs
        ∙ each (name ++ 0 ∷ stuff)
        ∙ rw (parse_param_3-cut F name stuff h n) (
            subst (λ u. stop bad_access ≡ again_result u b)
              (Option.some-injective (make p) g (ap (λ w. w.0) same)) (sym (stops p)))

    -- The kind with two.
    again_2 :
        (g : RandGen R) (b : List ℕ)
        → kind_of whole ≡ lognorm_kind
        → init_kind F lognorm_kind whole ≡ ok (some g, b)
        → init_rand F b ≡ again_result g b
    unfolding init_kind
    again_2 g b kind e =
        let ((p, b'), run, last) = >>=-eq-ok (parse_param_2 F whole) _ e in
        let same = ok-injective (some (lognormal (lognormal_of F p)), b') (some g, b) last in
        let (stuff, _, runs) =
          init_rand-cut lognorm_kind b kind (λ q. cc)
            (subst IsCut (ap (λ w. w.1) same) (parse_param_2-IsCut p b' run)) in
        runs
        ∙ rw (parse_param_2-cut F name stuff h n) (
            subst (λ u. stop bad_access ≡ again_result u b)
              (Option.some-injective (lognormal (lognormal_of F p)) g (ap (λ w. w.0) same)) refl)

    -- The kinds with one.
    again_1 :
        (make : R → RandGen R) (k : Kind) (g : RandGen R) (b : List ℕ)
        → ((buf : List ℕ)
            → init_kind F k buf
              ≡ ok (some (make (parse_param_1 F buf).0.a), (parse_param_1 F buf).1))
        → ((a : R) → again_result (make a) b ≡ ok (some (make (F.of_int (pos 0))), b))
        → kind_of whole ≡ k
        → k ≢ unknown_kind
        → init_kind F k whole ≡ ok (some g, b)
        → init_rand F b ≡ again_result g b
    again_1 make k g b each zero_again kind known e =
        let p = parse_param_1 F whole in
        let same = ok-injective (some (make p.0.a), p.1) (some g, b) (sym (each whole) ∙ e) in
        let (stuff, cut_off, runs) =
          init_rand-cut k b kind known (subst IsCut (ap (λ w. w.1) same) parse_param_1-IsCut) in
        runs
        ∙ each (name ++ 0 ∷ stuff)
        ∙ rw (parse_param_1-cut F name stuff h n, ← cut_off)
            (subst (λ u. ok (some (make (F.of_int (pos 0))), b) ≡ again_result u b)
              (Option.some-injective (make p.0.a) g (ap (λ w. w.0) same)) (sym (zero_again p.0.a)))

    by_kind :
        (k : Kind) (g : RandGen R) (b : List ℕ)
        → kind_of whole ≡ k
        → init_kind F k whole ≡ ok (some g, b)
        → init_rand F b ≡ again_result g b
    unfolding init_kind
    by_kind fixed_kind g b kind e =
        again_1 fixed fixed_kind g b (unfold fixed_init in λ buf. refl) (λ a. refl) kind (λ q. cc) e
    by_kind exp_kind g b kind e =
        again_1 (λ a. exponential (F.div (F.of_int (pos 1)) a)) exp_kind g b (λ buf. refl)
          (λ a. refl) kind (λ q. cc) e
    by_kind pareto_kind g b kind e =
        again_3 (λ p. pareto (lss_of F p)) pareto_kind g b (λ buf. refl) (λ p. refl) kind (λ q. cc)
          e
    by_kind gev_kind g b kind e =
        again_3 (λ p. gev (lss_of F p)) gev_kind g b (λ buf. refl) (λ p. refl) kind (λ q. cc) e
    by_kind fb_key_kind g b kind e = absurd (kind_of-colon name rest h fb_key_kind tt kind)
    by_kind fb_ia_kind g b kind e = absurd (kind_of-colon name rest h fb_ia_kind tt kind)
    by_kind fb_val_kind g b kind e = absurd (kind_of-colon name rest h fb_val_kind tt kind)
    by_kind bimodal_kind g b kind e =
        again_3 (λ p. bimodal (bimodal_of F p)) bimodal_kind g b (λ buf. refl) (λ p. refl) kind
          (λ q. cc) e
    by_kind lognorm_kind g b kind e = again_2 g b kind e
    by_kind gamma_kind g b kind e =
        let (w, _, last) = >>=-eq-ok (parse_param_2 F whole) _ e in absurd (ground arith)
    by_kind unknown_kind g b kind e = absurd (ground arith)

    -- A description that consists of a name, a colon and more, and of which `init_rand` has made a
    -- generator, is spoilt: a second `init_rand` on the same buffer reads through a null pointer,
    -- except for the two kinds with one parameter, for which it makes a generator with parameter 0.
    pub init_rand_again :
        (g : RandGen R) (b : List ℕ)
        → init_rand F whole ≡ ok (some g, b)
        → init_rand F b ≡ again_result g b
    unfolding init_rand
    init_rand_again g b e = by_kind (kind_of whole) g b refl e
