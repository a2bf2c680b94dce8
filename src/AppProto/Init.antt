-- ===== src/AppProto/Init.antt =====
-- `init_app_proto` of lancet/agents/app_proto.c: a protocol from its description, such as `echo:4`
-- or `synthetic:exp:10`.
use kata_load_test.Base.{
  ℕ, false, Option, none, some, List, [], ◌∷◌, if◌then◌else◌, length, drop, ltb, Outcome, ok, stop,
  assert_failed, bad_access, ◌>>=◌, ◌>>◌, or_stop, require,
}
use kata_load_test.Base.Int.{ℤ, pos, negsuc}
use kata_load_test.Rand.Real.{Real}
use kata_load_test.Rand.Libc.{Libc}
use kata_load_test.Rand.Strtok.{Scan, buffer_of, at_string, strtok, has_prefix}
use kata_load_test.Rand.Gen.{RandGen}
use kata_load_test.Rand.Init.{init_rand, next_token}
use kata_load_test.AppProto.Response.{
  AppProto, proto_echo, proto_synthetic, proto_ascii_memcached, proto_ascii_memcached_svc,
}

-- `struct application_protocol`: the type, which decides the functions, and the generator among
-- what `arg` holds; a null generator is `none`.
pub record ApplicationProtocol (R : Type 0) : Type 0 where
  pub type : AppProto
  pub gen : Option (RandGen R)

abbrev pub echo_text : List ℕ
echo_text = b'e' ∷ b'c' ∷ b'h' ∷ b'o' ∷ []

abbrev pub synthetic_text : List ℕ
synthetic_text = b's' ∷ b'y' ∷ b'n' ∷ b't' ∷ b'h' ∷ b'e' ∷ b't' ∷ b'i' ∷ b'c' ∷ []

abbrev pub ascii_mem_text : List ℕ
ascii_mem_text = b'a' ∷ b's' ∷ b'c' ∷ b'i' ∷ b'i' ∷ b'-' ∷ b'm' ∷ b'e' ∷ b'm' ∷ []

abbrev pub ascii_mem_svc_text : List ℕ
ascii_mem_svc_text =
    b'a' ∷ b's' ∷ b'c' ∷ b'i' ∷ b'i' ∷ b'-' ∷ b'm' ∷ b'e' ∷ b'm' ∷ b'-' ∷ b's' ∷ b'v' ∷ b'c' ∷ []

-- `strtok(NULL, "")`: the rest of the string.
abbrev pub rest_token : Scan → Option (List ℕ)
rest_token s = (strtok (λ c. false) s).0

module _ (F : Real) (L : Libc) where
  open F use {R}

  -- malloc(n) for an int n: a negative one is more than there is.
  abbrev pub malloc_int : ℤ → Outcome ℕ
  malloc_int (pos n) = ok n
  malloc_int (negsuc n) = stop assert_failed

  -- With the buffer afterwards, as in `init_rand`.
  unfoldable pub echo_init : List ℕ → Outcome (ApplicationProtocol R × List ℕ)
  echo_init buf = do
    let name = next_token (at_string buf)
    let tok = next_token name.1
    token ← or_stop tok.0 bad_access
    message_len ← malloc_int (L.atoi token)
    ok (record { type = proto_echo message_len; gen = none }, buffer_of tok.1)

  unfoldable pub synthetic_init : List ℕ → Outcome (ApplicationProtocol R)
  synthetic_init buf = do
    let name = next_token (at_string buf)
    token ← or_stop (rest_token name.1) bad_access
    (made, _) ← init_rand F token
    gen ← or_stop made assert_failed
    ok (record { type = proto_synthetic; gen = some gen })

  -- `&proto[14]` is behind the terminating NUL if the description has no more than 13 bytes.
  unfoldable pub ascii_mem_svc_init : List ℕ → Outcome (ApplicationProtocol R)
  ascii_mem_svc_init buf = do
    require (ltb 13 (length buf)) bad_access
    (made, _) ← init_rand F (drop 14 buf)
    ok (record { type = proto_ascii_memcached_svc; gen = made })

  abbrev pub ascii_mem_init : ApplicationProtocol R
  ascii_mem_init = record { type = proto_ascii_memcached; gen = none }

  -- A null pointer is `none`.
  unfoldable pub init_app_proto : List ℕ → Outcome (Option (ApplicationProtocol R))
  unfolding echo_init synthetic_init ascii_mem_svc_init
  init_app_proto proto =
      if has_prefix echo_text proto
      then (echo_init proto >>= λ w. ok (some w.0))
      else if has_prefix synthetic_text proto
      then (synthetic_init proto >>= λ p. ok (some p))
      else if has_prefix ascii_mem_svc_text proto
      then (ascii_mem_svc_init proto >>= λ p. ok (some p))
      else if has_prefix ascii_mem_text proto
      then ok (some ascii_mem_init)
      else ok none
