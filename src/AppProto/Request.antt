-- ===== src/AppProto/Request.antt =====
-- How the protocols build requests: `create_request`. A request is the list of the byte strings that
-- its iovecs point to; `per_thread_arg` is what the thread keeps between requests.
use kata_load_test.Base.{
  refl, ℕ, zero, suc, ◌+◌, ◌/◌, ◌%◌, ◌^◌, ◌<◌, ◌≡◌, ap, ◌∙◌, some, List, [], ◌∷◌, ◌++◌, arith,
  length, length-append, replicate, get_elem?, wrap32,
}
use kata_load_test.AppProto.Decimal.{padded, decimal, value, value-padded, length-padded}
use kata_load_test.AppProto.Response.{
  AppProto, proto_echo, proto_synthetic, proto_ascii_memcached, proto_ascii_memcached_svc,
  size_of_long,
}

-- What `per_thread_arg` holds: null, the long of the synthetic protocol (which is kept in the
-- pointer itself), or the next key of the memcached protocol. A thread has one protocol, so it never
-- meets what another one keeps. (The memcached service protocol allocates the memcached data for
-- its text buffer only.)
pub data PerThread : Type 0 where
  null : PerThread
  spin_time : ℕ → PerThread
  current_key : ℕ → PerThread

abbrev pub Request : Type 0
Request = List (List ℕ)

-- The eight bytes of a long, lowest first.
abbrev pub bytes_of : ℕ → ℕ → List ℕ
bytes_of zero n = []
bytes_of (suc k) n = n % 256 ∷ bytes_of k (n / 256)

-- "get " and "\r\n"
abbrev pub get_key : List ℕ → List ℕ
get_key key = b'g' ∷ b'e' ∷ b't' ∷ 32 ∷ (key ++ 13 ∷ 10 ∷ [])

-- The next key: data that is not there yet is allocated with key 0.
abbrev pub next_key : PerThread → ℕ
next_key (current_key k) = k
next_key null = 0
next_key (spin_time n) = 0

abbrev pub echo_create_request : ℕ → PerThread → Request × PerThread
echo_create_request msg_len arg = (replicate msg_len b'#' ∷ [], arg)

abbrev pub synthetic_create_request : ℕ → PerThread → Request × PerThread
synthetic_create_request sample arg = (bytes_of size_of_long sample ∷ [], spin_time sample)

abbrev pub ascii_mem_create_request : PerThread → Request × PerThread
ascii_mem_create_request arg =
    (get_key (padded 19 (next_key arg % 1_000_000)) ∷ [], current_key (wrap32 (next_key arg + 1)))

abbrev pub ascii_mem_svc_create_request : ℕ → PerThread → Request × PerThread
ascii_mem_svc_create_request sample arg = (get_key (decimal 18 sample) ∷ [], arg)

-- `sample` is `lround(generate(..))` of the protocol's random generator, and not negative.
unfoldable pub create_request : AppProto → ℕ → PerThread → Request × PerThread
create_request (proto_echo msg_len) sample arg = echo_create_request msg_len arg
create_request proto_synthetic sample arg = synthetic_create_request sample arg
create_request proto_ascii_memcached sample arg = ascii_mem_create_request arg
create_request proto_ascii_memcached_svc sample arg = ascii_mem_svc_create_request sample arg

-- `bytes_to_send` of lancet/agents/tp_tcp.c.
abbrev pub request_bytes : Request → ℕ
request_bytes [] = 0
request_bytes (iov ∷ iovs) = length iov + request_bytes iovs

-- `n` requests one after another.
pub create_requests : AppProto → ℕ → PerThread → List Request
unfolding create_request
create_requests proto zero arg = []
create_requests proto (suc n) arg =
    let (req, arg') = create_request proto 0 arg in req ∷ create_requests proto n arg'

-- The memcached request for key `k`.
abbrev pub key_request : ℕ → Request
key_request k = get_key (padded 19 (k % 1_000_000)) ∷ []

create_requests-nth :
    (n k i : ℕ)
    → k + n < 2 ^ 32
    → i < n
    → get_elem? (create_requests proto_ascii_memcached n (current_key k)) i
      ≡ some (key_request (k + i))
unfolding create_requests
create_requests-nth zero k i small lt = absurd (omega arith)
create_requests-nth (suc n) k zero small lt = let e : k + 0 ≡ k = omega arith in rw e
create_requests-nth (suc n) k (suc i) small lt =
    let next : wrap32 (k + 1) ≡ k + 1 = omega arith in
    let e : k + suc i ≡ k + 1 + i = omega arith in
    rw (next, e) (create_requests-nth n (k + 1) i (omega arith) (omega arith))

-- A thread that has made no request yet starts with key 0.
create_requests-null :
    (n : ℕ)
    → create_requests proto_ascii_memcached n null
      ≡ create_requests proto_ascii_memcached n (current_key 0)
unfolding create_requests
create_requests-null zero = refl
create_requests-null (suc n) = refl

-- Of the first 2^32 - 1 requests that a thread makes in the memcached protocol, from a null
-- `per_thread_arg` on, request `i` asks
-- for the key `i` modulo a million: its text is 25 bytes, of which the 19 behind "get " are digits
-- that read as that key.
pub create_requests-keys :
    (n i : ℕ)
    → n < 2 ^ 32
    → i < n
    → (key : List ℕ) × (get_elem? (create_requests proto_ascii_memcached n null) i
        ≡ some (get_key key ∷ []))
      × (length key ≡ 19)
      × (value key ≡ i % 1_000_000)
      × (request_bytes (get_key key ∷ []) ≡ 25)
create_requests-keys n i small lt = (
  key,
  ap (λ rs. get_elem? rs i) (create_requests-null n)
      ∙ create_requests-nth n 0 i (omega arith) lt
      ∙ ap (λ k. some (key_request k)) (omega arith),
  length-padded 19 (i % 1_000_000),
  value-padded 19 (i % 1_000_000) (omega arith),
  omega (arith, length-append key (13 ∷ 10 ∷ []), length-padded 19 (i % 1_000_000)),
)
  where
    key : List ℕ
    key = padded 19 (i % 1_000_000)
