-- ===== src/Agent/Targets.antt =====
-- The option `-s` of `parse_arguments`: targets as ip:port,ip:port.
pub mod Laws
pub mod Bounds
use kata_load_test.Base.{
  ℕ, zero, suc, Bool, Option, none, some, List, [], ◌∷◌, ◌++◌, ◌==◌, length, ltb, Outcome, ok, stop,
  bad_access, ◌>>=◌, ◌>>◌, or_stop, assert,
}
use kata_load_test.Rand.Libc.{Libc}
use kata_load_test.Rand.Strtok.{Scan, at_string, is_colon, strtok}
use kata_load_test.Agent.Config.{HostTuple, max_targets, to_uint16}

abbrev pub is_comma : ℕ → Bool
is_comma c = c == b','

-- What the loop writes: the targets in front of `target_count`, and the variable `sa.sin_addr`.
pub record TargetState : Type 0 where
  pub targets : List HostTuple
  pub sin_addr : ℕ

-- inet_pton writes nothing when it fails, and its result is not looked at.
abbrev pub address_or : Option ℕ → ℕ → ℕ
address_or none old = old
address_or (some a) old = a

module _ (L : Libc) where
  -- One target; strtok_r keeps `token1` in place, so its scan is the token's own. inet_pton and atoi
  -- read through the pointers that strtok_r gives.
  unfoldable pub add_target : List ℕ → TargetState → Outcome TargetState
  add_target token1 s = do
    let at_ip = strtok is_colon (at_string token1)
    ip_text ← or_stop at_ip.0 bad_access
    let sin_addr' = address_or (L.inet_pton ip_text) s.sin_addr
    port_text ← or_stop (strtok is_colon at_ip.1).0 bad_access
    let targets' = s.targets ++ record { ip = sin_addr'; port = to_uint16 (L.atoi port_text) } ∷ []
    assert (ltb (length targets') max_targets)
    ok (record { targets = targets'; sin_addr = sin_addr' })

  -- A round of the loop; `next` is the rest of it.
  unfoldable pub on_token :
      (Scan → TargetState → Outcome TargetState)
      → Option (List ℕ)
      → Scan
      → TargetState
      → Outcome TargetState
  on_token next none optarg s = ok s
  on_token next (some token1) optarg s = add_target token1 s >>= λ s'. next optarg s'

  -- The loop, on fuel.
  unfoldable pub targets_loop : ℕ → Scan → TargetState → Outcome TargetState
  targets_loop zero optarg s = ok s
  targets_loop (suc fuel) optarg s =
      let token1 = strtok is_comma optarg in
      on_token (λ o s'. targets_loop fuel o s') token1.0 token1.1 s

  -- Every token takes a byte.
  abbrev pub parse_targets : List ℕ → TargetState → Outcome TargetState
  parse_targets optarg s = targets_loop (suc (length optarg)) (at_string optarg) s
