-- ===== src/AppProto/Descriptions.antt =====
-- Descriptions of protocols as a user writes them, and the protocols that they stand for.
use kata_load_test.Base.{
  ℕ, ◌≡◌, refl, ap, false, true, ltb, length, some, List, [], ◌∷◌, ◌++◌, arith, ok,
}
use kata_load_test.Base.Int.{pos}
use kata_load_test.Rand.Real.{Real}
use kata_load_test.Rand.Libc.{Libc}
use kata_load_test.Rand.Strtok.Tokens.{IsFree, IsNonempty, strtok-whole}
use kata_load_test.Rand.Strtok.Laws.{IsText, strtok-colon, strtok-all}
use kata_load_test.Rand.Print.{
  Description, fixed_of, exp_of, pareto_of, gev_of, bimodal_of_texts, lognorm_of, IsParam,
  IsDescription, print, print_1, meaning, init_rand-print,
}
use kata_load_test.Rand.Init.{
  fixed_text, exp_text, pareto_text, gev_text, bimodal_text, lognorm_text,
}
use kata_load_test.AppProto.Response.{
  proto_echo, proto_synthetic, proto_ascii_memcached, proto_ascii_memcached_svc,
}
use kata_load_test.AppProto.Init.{
  ApplicationProtocol, echo_text, synthetic_text, ascii_mem_text, ascii_mem_svc_text, rest_token,
  init_app_proto,
}
use kata_load_test.Base.{none}

pub data ProtocolText : Type 0 where
  echo_of : List ℕ → ProtocolText
  synthetic_of : Description → ProtocolText
  memcached_of : ProtocolText
  memcached_svc_of : Description → ProtocolText

pub print_protocol : ProtocolText → List ℕ
print_protocol (echo_of a) = print_1 echo_text a
print_protocol (synthetic_of d) = print_1 synthetic_text (print d)
print_protocol memcached_of = ascii_mem_text
print_protocol (memcached_svc_of d) = print_1 ascii_mem_svc_text (print d)

-- Bytes that are not NUL.
abbrev IsBytes : List ℕ → Type 0
IsBytes t = IsFree (λ c. false) t

text-IsBytes : (t : List ℕ) → IsText t → IsBytes t
text-IsBytes [] h = tt
text-IsBytes (c ∷ cs) h = (ground arith, text-IsBytes cs h.1)

append-IsBytes : (s t : List ℕ) → IsBytes s → IsBytes t → IsBytes (s ++ t)
append-IsBytes [] t h k = k
append-IsBytes (c ∷ cs) t h k = (h.0, append-IsBytes cs t h.1 k)

join-IsBytes : (s t : List ℕ) → IsText s → IsBytes t → IsBytes (s ++ b':' ∷ t)
join-IsBytes s t h k = append-IsBytes s (b':' ∷ t) (text-IsBytes s h) (refl, k)

three-IsBytes :
    (s a b c : List ℕ)
    → IsText s
    → IsParam a × IsParam b × IsParam c
    → IsBytes (s ++ b':' ∷ (a ++ b':' ∷ (b ++ b':' ∷ c)))
three-IsBytes s a b c h k =
    join-IsBytes s _ h (join-IsBytes a _ k.0.0 (join-IsBytes b c k.1.0 (text-IsBytes c k.2.0)))

print-IsBytes : (d : Description) → IsDescription d → IsBytes (print d) × IsNonempty (print d)
unfolding print
print-IsBytes (fixed_of a) h = (join-IsBytes fixed_text a (ground arith) (text-IsBytes a h.0), tt)
print-IsBytes (exp_of a) h = (join-IsBytes exp_text a (ground arith) (text-IsBytes a h.0), tt)
print-IsBytes (pareto_of a b c) h = (three-IsBytes pareto_text a b c (ground arith) h, tt)
print-IsBytes (gev_of a b c) h = (three-IsBytes gev_text a b c (ground arith) h, tt)
print-IsBytes (bimodal_of_texts a b c) h = (three-IsBytes bimodal_text a b c (ground arith) h, tt)
print-IsBytes (lognorm_of a b) h =
    (join-IsBytes lognorm_text _ (ground arith) (join-IsBytes a b h.0.0 (text-IsBytes b h.1.0)), tt)

rest_token-bytes :
    (done t : List ℕ)
    → IsBytes t
    → IsNonempty t
    → rest_token (record { done = done; rest = t }) ≡ some t
rest_token-bytes done t h n = ap (λ w. w.0) (strtok-whole (λ c. false) done t h n)

has_room : (t : List ℕ) → ltb 13 (length (print_1 ascii_mem_svc_text t)) ≡ true
has_room t = ground arith

module _ (F : Real) (L : Libc) where
  open F use {R}

  abbrev pub IsProtocolText : ProtocolText → Type 0
  IsProtocolText (echo_of a) = IsParam a × (n : ℕ) × (L.atoi a ≡ pos n)
  IsProtocolText (synthetic_of d) = IsDescription d
  IsProtocolText memcached_of = Unit {0}
  IsProtocolText (memcached_svc_of d) = IsDescription d

  abbrev pub protocol_of : (t : ProtocolText) → IsProtocolText t → ApplicationProtocol R
  protocol_of (echo_of a) h = record { type = proto_echo h.1; gen = none }
  protocol_of (synthetic_of d) h = record { type = proto_synthetic; gen = some (meaning F d) }
  protocol_of memcached_of h = record { type = proto_ascii_memcached; gen = none }
  protocol_of (memcached_svc_of d) h = record {
    type = proto_ascii_memcached_svc;
    gen = some (meaning F d);
  }

  -- A description of a protocol is read back: `echo:` with a text that is not empty, has no NUL and
  -- no colon, and for which atoi gives a length that is not negative; `synthetic:` and
  -- `ascii-mem-svc:` with the description of a generator of the kinds fixed, exp, pareto, gev,
  -- bimodal and lognorm, whose parameters are not empty and have no NUL and no colon; and
  -- `ascii-mem`. They make the protocol that they name, with that length or that generator.
  pub init_app_proto-print :
      (t : ProtocolText) (h : IsProtocolText t)
      → init_app_proto F L (print_protocol t) ≡ ok (some (protocol_of t h))
  unfolding init_app_proto print_protocol
  init_app_proto-print (echo_of a) h = rw (
    strtok-colon [] echo_text a (ground arith) tt,
    strtok-all (echo_text ++ 0 ∷ []) a h.0.0 h.0.1,
    h.2,
  )
  init_app_proto-print (synthetic_of d) h =
      let (bytes, some_bytes) = print-IsBytes d h in
      rw (
        strtok-colon [] synthetic_text (print d) (ground arith) tt,
        rest_token-bytes (synthetic_text ++ 0 ∷ []) (print d) bytes some_bytes,
        (init_rand-print F d h).1,
      )
  init_app_proto-print memcached_of h = refl
  init_app_proto-print (memcached_svc_of d) h = rw ((init_rand-print F d h).1, has_room (print d))
