-- ===== src/Rand/Again/Kinds.antt =====
-- The kind of a description, before and after its name is cut off.
use kata_load_test.Base.{
  ℕ, ◌≡◌, ◌≢◌, refl, sym, subst, Bool, List, ◌∷◌, ◌++◌, arith, if◌then◌else◌, Bool-cases, inl, inr,
}
use kata_load_test.Rand.Strtok.{has_prefix, is_string}
use kata_load_test.Rand.Strtok.Laws.{IsText, has_prefix-name, is_string-colon, is_string-nul}
use kata_load_test.Rand.Init.{
  Kind, fixed_kind, exp_kind, pareto_kind, gev_kind, fb_key_kind, fb_ia_kind, fb_val_kind,
  bimodal_kind, lognorm_kind, gamma_kind, unknown_kind, kind_of, fixed_text, exp_text, pareto_text,
  gev_text, fb_key_text, fb_ia_text, fb_val_text, bimodal_text, lognorm_text, gamma_text,
}

-- The kind of a description with a colon is that of its name; `stuff` is what is behind the NUL.
pub kind_of-again :
    (name rest stuff : List ℕ)
    → IsText name
    → kind_of (name ++ b':' ∷ rest) ≢ unknown_kind
    → kind_of (name ++ 0 ∷ stuff) ≡ kind_of (name ++ b':' ∷ rest)
unfolding kind_of
kind_of-again name rest stuff h known = elim (Bool-cases (is_string fb_key_text again)) [
  | inl e ↦
      absurd
        (known (subst Unknown (sym (is_string-nul fb_key_text name stuff (ground arith) h e)) refl))
  | inr n1 ↦ elim (Bool-cases (is_string fb_ia_text again)) [
    | inl e ↦
        absurd (
          known (subst Unknown (sym (is_string-nul fb_ia_text name stuff (ground arith) h e)) refl))
    | inr n2 ↦ elim (Bool-cases (is_string fb_val_text again)) [
      | inl e ↦ absurd (
          known
            (subst Unknown (sym (is_string-nul fb_val_text name stuff (ground arith) h e)) refl))
      | inr n3 ↦ rw (
        n1,
        n2,
        n3,
        is_string-colon fb_key_text name rest (ground arith) h,
        is_string-colon fb_ia_text name rest (ground arith) h,
        is_string-colon fb_val_text name rest (ground arith) h,
        ← has_prefix-name fixed_text name rest stuff (ground arith),
        ← has_prefix-name exp_text name rest stuff (ground arith),
        ← has_prefix-name pareto_text name rest stuff (ground arith),
        ← has_prefix-name gev_text name rest stuff (ground arith),
        ← has_prefix-name bimodal_text name rest stuff (ground arith),
        ← has_prefix-name lognorm_text name rest stuff (ground arith),
        ← has_prefix-name gamma_text name rest stuff (ground arith),
      )
    ]
  ]
]
  where
    again : List ℕ
    again = name ++ 0 ∷ stuff

    Unknown : List ℕ → Type 0
    Unknown n = kind_of (n ++ b':' ∷ rest) ≡ unknown_kind

-- A description with a colon is not one of the three that stand for a text.
abbrev pub IsOwn : Kind → Type 0
IsOwn fb_key_kind = Unit {0}
IsOwn fb_ia_kind = Unit {0}
IsOwn fb_val_kind = Unit {0}
IsOwn k = ⊥

no_own_branch :
    (b1 b2 b3 b4 b5 b6 b7 : Bool) (k : Kind)
    → IsOwn k
    → (if b1
        then fixed_kind
        else if b2
        then exp_kind
        else if b3
        then pareto_kind
        else if b4
        then gev_kind
        else if b5
        then bimodal_kind
        else if b6
        then lognorm_kind
        else if b7
        then gamma_kind
        else unknown_kind)
      ≢ k
no_own_branch b1 b2 b3 b4 b5 b6 b7 k own e = absurd (ground arith)

pub kind_of-colon :
    (name rest : List ℕ) → IsText name → (k : Kind) → IsOwn k → kind_of (name ++ b':' ∷ rest) ≢ k
unfolding kind_of
kind_of-colon name rest h k own e =
    no_own_branch (starts fixed_text) (starts exp_text) (starts pareto_text) (starts gev_text)
      (starts bimodal_text) (starts lognorm_text) (starts gamma_text) k own
      (rw
        (
          is_string-colon fb_key_text name rest (ground arith) h,
          is_string-colon fb_ia_text name rest (ground arith) h,
          is_string-colon fb_val_text name rest (ground arith) h,
        )
        at e)
  where
    starts : List ℕ → Bool
    starts p = has_prefix p (name ++ b':' ∷ rest)
