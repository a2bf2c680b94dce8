-- ===== src/Tcp/Balance.antt =====
-- Every connection has at most 16 requests waiting, and the thread's budget `avail_reqs` is what is
-- left of 16 for each connection.
use kata_load_test.Base.{
  ℕ, zero, suc, ◌+◌, ◌*◌, ◌≤◌, ◌<◌, ◌≡◌, refl, false, Option, none, some, List, [], ◌∷◌, arith,
  length, get_elem?, set, All, All-get, All-set, ok, stop, Outcome, Bool-cases, Option-cases, inl,
  inr, length-set, wrap16, ◌⊎◌, ◌%◌, ◌==◌, get_elem?-total,
}
use kata_load_test.Base.Int.{ℤ, pos, pos_part, neg_part, ◌+ℤ◌, ◌-ℤ◌, +ℤ_parts, -ℤ_parts}
use kata_load_test.Timestamping.Pending.{max_pending_reqs}
use kata_load_test.Tcp.Connection.{TcpConnection, max_payload, is_available, pick_loop, pick_conn}

-- The requests waiting on all connections.
abbrev pub total_pending : List TcpConnection → ℕ
total_pending [] = 0
total_pending (c ∷ cs) = c.pending_reqs + total_pending cs

pub total_pending-set :
    (cs : List TcpConnection) (i : ℕ) (c c' : TcpConnection)
    → get_elem? cs i ≡ some c
    → total_pending (set cs i c') + c.pending_reqs ≡ total_pending cs + c'.pending_reqs
total_pending-set [] i c c' h = absurd (ground arith)
total_pending-set (x ∷ cs) zero c c' h =
    let e : x.pending_reqs ≡ c.pending_reqs = ground arith in omega (arith, e)
total_pending-set (x ∷ cs) (suc i) c c' h = omega (arith, total_pending-set cs i c c' h)

pub record IsBounded (c : TcpConnection) : Type 0 where
  pub pending : c.pending_reqs ≤ max_pending_reqs
  pub buffered : c.buffer_idx ≤ max_payload

pub record IsBalanced (cs : List TcpConnection) (avail_reqs : ℤ) : Type 0 where
  pub each : All IsBounded cs
  pub balance :
      pos_part avail_reqs + total_pending cs ≡ neg_part avail_reqs + max_pending_reqs * length cs

-- A connection that `pick_conn` returns is one of the thread's, open, and has room for a request.
pub record IsPicked (cs : List TcpConnection) (i : ℕ) : Type 0 where
  pub conn : TcpConnection
  pub found : get_elem? cs i ≡ some conn
  pub room : conn.pending_reqs < max_pending_reqs
  pub is_open : conn.closed ≡ false

pick_loop-IsPicked :
    (cs : List TcpConnection) (per : ℕ) (rand : ℕ → ℕ) (rounds i idx : ℕ)
    → pick_loop cs per rand rounds i ≡ ok (some idx)
    → IsPicked cs idx
unfolding pick_loop
pick_loop-IsPicked cs per rand zero i idx h = absurd (ground arith)
pick_loop-IsPicked cs per rand (suc rounds) i idx h = elim (Bool-cases (per == 0)) [
  | inl zero_per ↦ absurd (ground arith)
  | inr some_per ↦ elim (Option-cases (get_elem? cs (rand i % per))) [
    | inl outside ↦ absurd (ground arith)
    | inr (c, e) ↦ elim (Bool-cases (is_available c)) [
      | inl yes_room ↦
          let same : rand i % per ≡ idx = ground arith in
          record { conn = c; found = rw (← same) e; room = ground arith; is_open = ground arith }
      | inr full ↦ pick_loop-IsPicked cs per rand rounds (i + 1) idx (ground arith)
    ]
  ]
]

pub pick_conn-IsPicked :
    (cs : List TcpConnection) (per : ℕ) (rand : ℕ → ℕ) (idx : ℕ)
    → pick_conn cs per rand ≡ ok (some idx)
    → IsPicked cs idx
unfolding pick_conn
pick_conn-IsPicked cs per rand idx = pick_loop-IsPicked cs per rand 10 0 idx

pick_loop-total :
    (cs : List TcpConnection) (rand : ℕ → ℕ) (rounds i : ℕ)
    → 0 < length cs
    → (o : Option ℕ) × (pick_loop cs (length cs) rand rounds i ≡ ok o)
unfolding pick_loop
pick_loop-total cs rand zero i nonempty = (none, refl)
pick_loop-total cs rand (suc rounds) i nonempty =
    let (c, e) = get_elem?-total cs (rand i % length cs) (omega arith) in
    elim (Bool-cases (is_available c)) [
      | inl room ↦ (some (rand i % length cs), ground arith)
      | inr full ↦
          let (o, rest) = pick_loop-total cs rand rounds (i + 1) nonempty in (o, ground arith)
    ]

pick_conn-total :
    (cs : List TcpConnection) (rand : ℕ → ℕ)
    → 0 < length cs
    → (o : Option ℕ) × (pick_conn cs (length cs) rand ≡ ok o)
unfolding pick_conn
pick_conn-total cs rand nonempty = pick_loop-total cs rand 10 0 nonempty

-- With at least one connection `pick_conn` returns without a fault: it gives up, or it returns an
-- open connection of the thread's that has room for a request.
pub pick_conn_sound :
    (cs : List TcpConnection) (rand : ℕ → ℕ)
    → 0 < length cs
    → (pick_conn cs (length cs) rand ≡ ok none)
      ⊎ ((idx : ℕ) × (pick_conn cs (length cs) rand ≡ ok (some idx)) × IsPicked cs idx)
pick_conn_sound cs rand nonempty = let (o, run) = pick_conn-total cs rand nonempty in sound o run
  where
    sound :
        (o : Option ℕ)
        → pick_conn cs (length cs) rand ≡ ok o
        → (pick_conn cs (length cs) rand ≡ ok none)
          ⊎ ((idx : ℕ) × (pick_conn cs (length cs) rand ≡ ok (some idx)) × IsPicked cs idx)
    sound none e = inl e
    sound (some idx) e = inr (idx, e, pick_conn-IsPicked cs (length cs) rand idx e)

-- One more request on the picked connection.
pub send-IsBalanced :
    (cs : List TcpConnection) (avail_reqs : ℤ) (idx : ℕ) (c : TcpConnection)
    → get_elem? cs idx ≡ some c
    → c.pending_reqs < max_pending_reqs
    → IsBalanced cs avail_reqs
    → IsBalanced
        (set cs idx (record c { pending_reqs = wrap16 (c.pending_reqs + 1) }))
        (avail_reqs -ℤ pos 1)
send-IsBalanced cs avail_reqs idx c found room b =
    let c' : TcpConnection = record c { pending_reqs = wrap16 (c.pending_reqs + 1) } in
    let old : IsBounded c = All-get IsBounded cs idx c b.each found in
    record {
      each = All-set IsBounded cs idx c' b.each (omega arith);
      balance = omega (
        arith,
        b.balance,
        length-set cs idx c',
        total_pending-set cs idx c c' found,
        -ℤ_parts avail_reqs (pos 1),
      );
    }

-- Responses counted on a connection, no more than were waiting.
pub read-IsBalanced :
    (cs : List TcpConnection) (avail_reqs : ℤ) (idx : ℕ) (c c' : TcpConnection) (reqs : ℕ)
    → get_elem? cs idx ≡ some c
    → c'.pending_reqs + reqs ≡ c.pending_reqs
    → c'.buffer_idx ≤ max_payload
    → IsBalanced cs avail_reqs
    → IsBalanced (set cs idx c') (avail_reqs +ℤ pos reqs)
read-IsBalanced cs avail_reqs idx c c' reqs found less small b =
    let old : IsBounded c = All-get IsBounded cs idx c b.each found in
    record {
      each = All-set IsBounded cs idx c' b.each (omega arith);
      balance = omega (
        arith,
        b.balance,
        length-set cs idx c',
        total_pending-set cs idx c c' found,
        +ℤ_parts avail_reqs (pos reqs),
      );
    }

-- A connection whose requests waiting do not change.
pub keep-IsBalanced :
    (cs : List TcpConnection) (avail_reqs : ℤ) (idx : ℕ) (c c' : TcpConnection)
    → get_elem? cs idx ≡ some c
    → c'.pending_reqs + 0 ≡ c.pending_reqs
    → c'.buffer_idx ≤ max_payload
    → IsBalanced cs avail_reqs
    → IsBalanced (set cs idx c') avail_reqs
keep-IsBalanced cs avail_reqs idx c c' found same small b =
    let old : IsBounded c = All-get IsBounded cs idx c b.each found in
    record {
      each = All-set IsBounded cs idx c' b.each (omega arith);
      balance = omega (arith, b.balance, length-set cs idx c', total_pending-set cs idx c c' found);
    }

-- Whether a connection was picked, to send a request on.
abbrev pub picked_one : Outcome (Option ℕ) → ℕ
picked_one (ok none) = 0
picked_one (ok (some idx)) = 1
picked_one (stop e) = 0

-- What comes after a round, if it goes on.
abbrev pub going_on {ℓ ℓ'} : {A : Type ℓ} {B : Type ℓ'} → Outcome A → B → (A → B) → B
going_on (ok t) stopped next = next t
going_on (stop e) stopped next = stopped
