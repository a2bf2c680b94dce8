-- ===== src/AppProto/Tests.antt =====
-- The protocols on concrete buffers and request numbers.
use kata_load_test.Base.{ℕ, ◌%◌, ◌≡◌, refl, some, List, [], ◌∷◌, arith, length, get_elem?, ok}
use kata_load_test.Base.{none}
use kata_load_test.Base.Int.{pos}
use kata_load_test.Rand.Libc.{Libc}
use kata_load_test.Rand.Print.{exp_of, meaning}
use kata_load_test.Rand.Tests.{integers}
use kata_load_test.AppProto.Init.{init_app_proto}
use kata_load_test.AppProto.Descriptions.{synthetic_of, print_protocol, init_app_proto-print}
use kata_load_test.AppProto.Response.{proto_synthetic}
use kata_load_test.AppProto.Decimal.{value}
use kata_load_test.AppProto.Response.{
  proto_ascii_memcached, consume_response, unit_size, whole, consume_response-whole,
}
use kata_load_test.AppProto.Request.{
  null, create_requests, get_key, request_bytes, create_requests-keys,
}

consume_response_memcached :
    consume_response proto_ascii_memcached 100 ≡ ok (record { bytes = 80; reqs = 2 })
unfolding consume_response
consume_response_memcached = refl

consume_response-whole_example :
    consume_response proto_ascii_memcached 100 ≡ ok (whole (unit_size proto_ascii_memcached) 100)
consume_response-whole_example =
    consume_response-whole proto_ascii_memcached 100 (omega arith) (omega arith) (omega arith)

create_requests-keys_example :
    (key : List ℕ) × (get_elem? (create_requests proto_ascii_memcached 3 null) 2
      ≡ some (get_key key ∷ []))
    × (length key ≡ 19)
    × (value key ≡ 2 % 1_000_000)
    × (request_bytes (get_key key ∷ []) ≡ 25)
create_requests-keys_example = create_requests-keys 3 2 (omega arith) (omega arith)

-- atoi reads a digit; there are no addresses.
abbrev texts : Libc
texts = record { atoi = λ t. pos (value t); inet_pton = λ t. none }

init_app_proto-print_example :
    init_app_proto integers texts (print_protocol (synthetic_of (exp_of (b'9' ∷ []))))
    ≡ ok (
        some
          (record { type = proto_synthetic; gen = some (meaning integers (exp_of (b'9' ∷ []))) }))
init_app_proto-print_example =
    init_app_proto-print integers texts (synthetic_of (exp_of (b'9' ∷ []))) (ground arith)
