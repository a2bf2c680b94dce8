-- ===== src/Agent/Targets/Laws.antt =====
-- Lists of targets are read back.
use mathlib.Core.List.{append-nil, append_assoc}
use kata_load_test.Base.{
  ℕ, zero, suc, ◌+◌, ◌≤◌, ◌<◌, ◌≡◌, refl, sym, ap, ◌∙◌, true, ltb, Option, none, some, List, [],
  ◌∷◌, ◌++◌, length, length-append, arith, ok, ◌>>=◌,
}
use kata_load_test.Rand.Libc.{Libc}
use kata_load_test.Rand.Strtok.{Scan, is_colon, strtok}
use kata_load_test.Rand.Strtok.Tokens.{
  IsFree, IsNonempty, strtok-delim, strtok-whole, strtok-nothing,
}
use kata_load_test.Rand.Strtok.Laws.{strtok-colon, strtok-all}
use kata_load_test.Agent.Config.{HostTuple, max_targets, to_uint16}
use kata_load_test.Agent.Targets.{
  is_comma, TargetState, add_target, targets_loop, on_token, parse_targets,
}

-- A target as a user writes it.
pub record TargetText : Type 0 where
  pub ip_text : List ℕ
  pub port_text : List ℕ

abbrev pub print_target : TargetText → List ℕ
print_target t = t.ip_text ++ b':' ∷ t.port_text

unfoldable pub print_targets : List TargetText → List ℕ
print_targets [] = []
print_targets (t ∷ []) = print_target t
print_targets (t ∷ u ∷ ts) = print_target t ++ b',' ∷ print_targets (u ∷ ts)

abbrev pub IsPart : List ℕ → Type 0
IsPart t = IsFree is_colon t × IsFree is_comma t × IsNonempty t

print_target-IsFree :
    (s t : List ℕ) → IsFree is_comma s → IsFree is_comma t → IsFree is_comma (s ++ b':' ∷ t)
print_target-IsFree [] t h k = (refl, k)
print_target-IsFree (c ∷ cs) t h k = (h.0, print_target-IsFree cs t h.1 k)

print_target-IsNonempty : (s t : List ℕ) → IsNonempty s → IsNonempty (s ++ b':' ∷ t)
print_target-IsNonempty [] t h = tt
print_target-IsNonempty (c ∷ cs) t h = tt

print_targets-long : (ts : List TargetText) → length ts ≤ suc (length (print_targets ts))
unfolding print_targets
print_targets-long [] = omega arith
print_targets-long (t ∷ []) = omega arith
print_targets-long (t ∷ u ∷ ts) = omega (
  arith,
  print_targets-long (u ∷ ts),
  length-append (print_target t) (b',' ∷ print_targets (u ∷ ts)),
  length-append t.ip_text (b':' ∷ t.port_text),
)

module _ (L : Libc) where
  -- A target of two parts, neither empty nor with a NUL, a colon or a comma, whose first part is an
  -- address.
  abbrev pub IsTarget : TargetText → Type 0
  IsTarget t = IsPart t.ip_text × IsPart t.port_text × (a : ℕ) × (L.inet_pton t.ip_text ≡ some a)

  abbrev pub AreTargets : List TargetText → Type 0
  AreTargets [] = Unit {0}
  AreTargets (t ∷ ts) = IsTarget t × AreTargets ts

  abbrev pub host_of : (t : TargetText) → IsTarget t → HostTuple
  host_of t h = record { ip = h.2; port = to_uint16 (L.atoi t.port_text) }

  abbrev pub hosts_of : (ts : List TargetText) → AreTargets ts → List HostTuple
  hosts_of [] h = []
  hosts_of (t ∷ ts) h = host_of t h.0 ∷ hosts_of ts h.1

  target-IsFree : (t : TargetText) → IsTarget t → IsFree is_comma (print_target t)
  target-IsFree t h = print_target-IsFree t.ip_text t.port_text h.0.1 h.1.1

  has_room :
      (ts : List HostTuple) (t : HostTuple)
      → suc (length ts) < max_targets
      → ltb (length (ts ++ t ∷ [])) max_targets ≡ true
  has_room ts t h = ground (arith, length-append ts (t ∷ []))

  add_target-print :
      (t : TargetText) (h : IsTarget t) (s : TargetState)
      → suc (length s.targets) < max_targets
      → add_target L (print_target t) s
        ≡ ok (record { targets = s.targets ++ host_of t h ∷ []; sin_addr = h.2 })
  unfolding add_target
  add_target-print t h s room = rw (
    strtok-colon [] t.ip_text t.port_text h.0.0 h.0.2,
    strtok-all (t.ip_text ++ 0 ∷ []) t.port_text h.1.0 h.1.2,
    h.3,
    has_room s.targets (host_of t h) room,
  )

  targets_loop-token :
      (fuel : ℕ) (o o' : Scan) (token : Option (List ℕ)) (s : TargetState)
      → strtok is_comma o ≡ (token, o')
      → targets_loop L (suc fuel) o s ≡ on_token L (targets_loop L fuel) token o' s
  unfolding targets_loop on_token
  targets_loop-token fuel o o' token s e = ap (λ w. on_token L (targets_loop L fuel) w.0 w.1 s) e

  -- The loop on what is left of the option.
  targets_loop-print :
      (ts : List TargetText) (h : AreTargets ts) (fuel : ℕ) (done : List ℕ) (s : TargetState)
      → length ts ≤ fuel
      → length s.targets + length ts < max_targets
      → (a : ℕ) × (targets_loop L fuel (record { done = done; rest = print_targets ts }) s
          ≡ ok (record { targets = s.targets ++ hosts_of ts h; sin_addr = a }))
  unfolding targets_loop on_token print_targets
  targets_loop-print [] h zero done s enough room = (s.sin_addr, rw (append-nil s.targets))
  targets_loop-print [] h (suc fuel) done s enough room = (
    s.sin_addr,
    targets_loop-token fuel _ _ none s (strtok-nothing is_comma done)
        ∙ ap (λ ts. ok (record { targets = ts; sin_addr = s.sin_addr }))
            (sym (append-nil s.targets)),
  )
  targets_loop-print (t ∷ []) h zero done s enough room = absurd (omega arith)
  targets_loop-print (t ∷ []) h (suc fuel) done s enough room =
      let s' : TargetState = record {
        targets = s.targets ++ host_of t h.0 ∷ [];
        sin_addr = h.0.2;
      } in
      let (a, e) =
        targets_loop-print [] tt fuel (done ++ print_target t) s' (omega arith)
          (omega (arith, length-append s.targets (host_of t h.0 ∷ []))) in
      (
        a,
        targets_loop-token fuel _ _ (some (print_target t)) s (
              strtok-whole is_comma done (print_target t) (target-IsFree t h.0)
                (print_target-IsNonempty t.ip_text t.port_text h.0.0.2))
            ∙ ap
                (λ m. m >>= λ s1.
                  targets_loop L fuel (record { done = done ++ print_target t; rest = [] }) s1)
                (add_target-print t h.0 s (omega arith))
            ∙ (e ∙ ap (λ ts. ok (record { targets = ts; sin_addr = a })) (append-nil s'.targets)),
      )
  targets_loop-print (t ∷ u ∷ ts) h zero done s enough room = absurd (omega arith)
  targets_loop-print (t ∷ u ∷ ts) h (suc fuel) done s enough room =
      let s' : TargetState = record {
        targets = s.targets ++ host_of t h.0 ∷ [];
        sin_addr = h.0.2;
      } in
      let (a, e) =
        targets_loop-print (u ∷ ts) h.1 fuel (done ++ print_target t ++ 0 ∷ []) s' (omega arith)
          (omega (arith, length-append s.targets (host_of t h.0 ∷ []))) in
      (
        a,
        targets_loop-token fuel _ _ (some (print_target t)) s (
              strtok-delim is_comma done (print_target t) b',' (print_targets (u ∷ ts))
                (target-IsFree t h.0) (print_target-IsNonempty t.ip_text t.port_text h.0.0.2) refl
                refl)
            ∙ ap
                (λ m. m >>= λ s1.
                  targets_loop L fuel
                    (record {
                      done = done ++ print_target t ++ 0 ∷ [];
                      rest = print_targets (u ∷ ts);
                    })
                    s1)
                (add_target-print t h.0 s (omega arith))
            ∙ (e
                ∙ ap (λ ts. ok (record { targets = ts; sin_addr = a }))
                    (append_assoc s.targets (host_of t h.0 ∷ []) (hosts_of (u ∷ ts) h.1))),
      )

  -- Fewer than 4096 targets, each an address that inet_pton takes and a port, neither empty nor with
  -- a NUL, a colon or a comma, joined by commas, are read back in their order behind the targets of
  -- earlier options, as long as there are fewer than 4096 in all; a port is what atoi gives, modulo
  -- 2 ^ 16.
  pub parse_targets-print :
      (ts : List TargetText) (h : AreTargets ts) (s : TargetState)
      → length s.targets + length ts < max_targets
      → (a : ℕ) × (parse_targets L (print_targets ts) s
          ≡ ok (record { targets = s.targets ++ hosts_of ts h; sin_addr = a }))
  parse_targets-print ts h s room =
      targets_loop-print ts h (suc (length (print_targets ts))) [] s
        (omega (arith, print_targets-long ts)) room
