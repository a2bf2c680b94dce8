-- ===== src/Agent/Targets/Bounds.antt =====
-- The loop over the targets: its fuel is enough, and it stays below the limit.
use kata_load_test.Base.{
  ℕ, zero, suc, ◌<◌, ◌≡◌, refl, ltb, Option, none, some, List, length, arith, Outcome, ok, stop,
  ok-injective, >>=-eq-ok, assert, bad_access, subst, ◌>>=◌, ◌>>◌, or_stop,
}
use kata_load_test.Rand.Libc.{Libc}
use kata_load_test.Rand.Strtok.{Scan, at_string, is_colon, strtok}
use kata_load_test.Rand.Strtok.Tokens.{strtok-progress}
use kata_load_test.Agent.Config.{max_targets}
use kata_load_test.Agent.Targets.{is_comma, TargetState, add_target, targets_loop, on_token}

assert-ltb : (a b : ℕ) (u : Unit {0}) → assert (ltb a b) ≡ ok u → a < b
assert-ltb a b u e = ground arith

asserted_room :
    (w s' : TargetState)
    → (assert (ltb (length w.targets) max_targets) >> ok w) ≡ ok s'
    → length s'.targets < max_targets
asserted_room w s' e =
    let (u, fits, last) = >>=-eq-ok (assert (ltb (length w.targets) max_targets)) (λ _. ok w) e in
    subst (λ v. length v.targets < max_targets) (ok-injective w s' last)
      (assert-ltb (length w.targets) max_targets u fits)

module _ (L : Libc) where
  on_token-agree :
      (next next' : Scan → TargetState → Outcome TargetState) (token : Option (List ℕ)) (o : Scan)
      (s : TargetState)
      → ((t : List ℕ) → token ≡ some t → (s' : TargetState) → next o s' ≡ next' o s')
      → on_token L next token o s ≡ on_token L next' token o s
  unfolding on_token
  on_token-agree next next' none o s h = refl
  on_token-agree next next' (some t) o s h =
      elim (add_target L t s) as (λ m. (m >>= λ s'. next o s') ≡ (m >>= λ s'. next' o s')) [
        | ok s' ↦ h t refl s'
        | stop e ↦ refl
      ]

  -- The loop ends within the fuel that `parse_targets` gives it: any two amounts of fuel that are
  -- more than the bytes left give the same.
  pub parse_targets-fuel :
      (f g : ℕ) (optarg : Scan) (s : TargetState)
      → length optarg.rest < f
      → length optarg.rest < g
      → targets_loop L f optarg s ≡ targets_loop L g optarg s
  unfolding targets_loop
  parse_targets-fuel zero g optarg s h k = absurd (omega arith)
  parse_targets-fuel (suc f) zero optarg s h k = absurd (omega arith)
  parse_targets-fuel (suc f) (suc g) optarg s h k =
      on_token-agree (targets_loop L f) (targets_loop L g) (strtok is_comma optarg).0
        (strtok is_comma optarg).1 s
        (λ t e s'.
          let p = strtok-progress is_comma optarg t e in
          parse_targets-fuel f g (strtok is_comma optarg).1 s' (omega arith) (omega arith))

  add_target-bounded :
      (t : List ℕ) (s s' : TargetState) → add_target L t s ≡ ok s' → length s'.targets < max_targets
  unfolding add_target
  add_target-bounded t s s' e =
      let (ip_text, _, e1) = >>=-eq-ok (or_stop (strtok is_colon (at_string t)).0 bad_access) _ e in
      let (port_text, _, e2) =
        >>=-eq-ok (or_stop (strtok is_colon (strtok is_colon (at_string t)).1).0 bad_access) _ e1 in
      asserted_room _ s' e2

  IsBounded : TargetState → Type 0
  IsBounded s = length s.targets < max_targets

  on_token-IsBounded :
      (next : Scan → TargetState → Outcome TargetState)
      → ((o : Scan) (s s' : TargetState) → IsBounded s → next o s ≡ ok s' → IsBounded s')
      → (token : Option (List ℕ)) (o : Scan) (s s' : TargetState) → IsBounded s
      → on_token L next token o s ≡ ok s'
      → IsBounded s'
  unfolding on_token
  on_token-IsBounded next each none o s s' h e = subst IsBounded (ok-injective s s' e) h
  on_token-IsBounded next each (some t) o s s' h e =
      let (s1, added, e1) = >>=-eq-ok (add_target L t s) _ e in
      each o s1 s' (unfold IsBounded in add_target-bounded t s s1 added) e1

  targets_loop-IsBounded :
      (fuel : ℕ) (o : Scan) (s s' : TargetState)
      → IsBounded s
      → targets_loop L fuel o s ≡ ok s'
      → IsBounded s'
  unfolding targets_loop
  targets_loop-IsBounded zero o s s' h e = subst IsBounded (ok-injective s s' e) h
  targets_loop-IsBounded (suc fuel) o s s' h e =
      on_token-IsBounded (targets_loop L fuel) (targets_loop-IsBounded fuel) (strtok is_comma o).0
        (strtok is_comma o).1 s s' h e

  -- The count of targets stays below 4096.
  pub targets_loop-bounded :
      (fuel : ℕ) (o : Scan) (s s' : TargetState)
      → length s.targets < max_targets
      → targets_loop L fuel o s ≡ ok s'
      → length s'.targets < max_targets
  unfolding IsBounded
  targets_loop-bounded = targets_loop-IsBounded
